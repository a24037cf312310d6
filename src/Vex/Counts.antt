-- ===== src/Vex/Counts.antt =====
-- What the summary of an OpenVEX document counts.
use sbom_graph.Prelude.{
  ℕ, ◌+◌, ◌≡◌, inl, inr, refl, subst, Bool, none, some, List, [], ◌∷◌, ◌++◌, String, ◌==◌, arith,
  Bool-cases, length,
}
use sbom_graph.Json.{
  Json, null, boolean, number, text, array, object, nil, Fields, blank, invalid, raises, untyped,
  Result, ok, err, get, get_or, or_else, as_dict, iterate, Ok, bind-Ok, Result-cases,
}
use sbom_graph.Vex.{
  VexFault, VexCall, create_vex_statement, link_vex_to_defect, link_vex_to_version, Trail, from_str,
  validate_document, extract_purl, linked_id, link_products, link_statement, link_vulnerability,
  persist_statement, process_statement, process_statements, process_vex_document,
}

-- How many of the calls link a vulnerability.
unfoldable pub defect_links : List VexCall → ℕ
defect_links [] = 0
defect_links (link_vex_to_defect i vuln_id ∷ calls) = defect_links calls + 1
defect_links (_ ∷ calls) = defect_links calls

defect_links-append :
    (xs ys : List VexCall) → defect_links (xs ++ ys) ≡ defect_links xs + defect_links ys
unfolding defect_links
defect_links-append [] ys = omega arith
defect_links-append (create_vex_statement i s a b c d e ∷ xs) ys = defect_links-append xs ys
defect_links-append (link_vex_to_defect i v ∷ xs) ys = omega (arith, defect_links-append xs ys)
defect_links-append (link_vex_to_version i p ∷ xs) ys = defect_links-append xs ys

Ok-map :
    {I A : Type 0} (P Q : A → Type 0) (r : Result I A) → ((a : A) → P a → Q a) → Ok P r → Ok Q r
unfolding Ok
Ok-map P Q (ok a) f h = f a h
Ok-map P Q (err e) f h = tt

module _ (is_vuln_id is_purl : String → Bool) where
  link_products_lem :
      (i : String) (products : List Json)
      → defect_links (link_products is_vuln_id is_purl i products).calls ≡ 0
  unfolding link_products defect_links
  link_products_lem i [] = refl
  link_products_lem i (product ∷ products) =
      elim (Result-cases (extract_purl is_vuln_id is_purl product)) [
        | inr (e, f) ↦ rw (link_products, f) refl
        | inl (none, f) ↦ rw (link_products, f) (link_products_lem i products)
        | inl (some purl, f) ↦
            rw (link_products, f)
              (elim (Bool-cases (purl == "")) [
                | inl e ↦ rw e (link_products_lem i products)
                | inr e ↦ rw e (link_products_lem i products)
              ])
      ]

  link_statement_lem :
      (i : String) (linked : ℕ) (stmt : Fields)
      → Ok
          (λ n. n ≡ linked + defect_links (link_statement is_vuln_id is_purl i linked stmt).calls)
          (link_statement is_vuln_id is_purl i linked stmt).outcome
  unfolding link_statement Ok
  link_statement_lem i linked stmt =
      elim (Result-cases (iterate {I = VexFault} (get_or "products" (array nil) stmt))) [
        | inr (e, f) ↦ rw (link_statement, f) tt
        | inl (products, f) ↦
            rw (link_statement, f)
              (bind-Ok
                (λ n. n ≡ linked + defect_links (link_products is_vuln_id is_purl i products).calls)
                (link_products is_vuln_id is_purl i products).outcome _
                (λ u g. omega (arith, link_products_lem i products)))
      ]

  -- How a trail counts its links of vulnerabilities.
  unfoldable Counts : Trail ℕ → Type 0
  Counts t = Ok (λ linked. linked ≡ defect_links t.calls) t.outcome

  link_vulnerability-Counts :
      (i : String) (stmt : Fields) → Counts (link_vulnerability is_vuln_id is_purl i stmt)
  unfolding link_vulnerability Counts defect_links Ok
  link_vulnerability-Counts i stmt =
      elim (Result-cases
        (as_dict {I = VexFault} (or_else (get "vulnerability" stmt) (object blank)))) [
          | inr (e, f) ↦ rw (Counts, link_vulnerability, f) tt
          | inl (v, f) ↦
              let id = or_else (get "@id" v) (get_or "name" (text "") v) in
              rw (Counts, link_vulnerability, f)
                (elim (Bool-cases (linked_id is_vuln_id is_purl id == "")) [
                  | inl e ↦
                      rw (Counts, e)
                        (Ok-map _ _ (link_statement is_vuln_id is_purl i 0 stmt).outcome
                          (λ n h. omega (arith, h)) (link_statement_lem i 0 stmt))
                  | inr e ↦
                      rw (Counts, e)
                        (Ok-map _ _ (link_statement is_vuln_id is_purl i 1 stmt).outcome
                          (λ n h. omega (arith, h)) (link_statement_lem i 1 stmt))
                ])
        ]

  process_statement-Counts :
      (i : String) (source timestamp stmt : Json)
      → Counts (process_statement is_vuln_id is_purl i source timestamp stmt)
  unfolding process_statement persist_statement Counts defect_links Ok
  process_statement-Counts i source timestamp (object stmt) =
      elim (Result-cases (from_str (get_or "status" (text "") stmt))) [
        | inl (status, f) ↦ rw (Counts, process_statement, f) (link_vulnerability-Counts i stmt)
        | inr (invalid fault, f) ↦ rw (Counts, process_statement, f) refl
        | inr (raises, f) ↦ rw (Counts, process_statement, f) tt
        | inr (untyped, f) ↦ rw (Counts, process_statement, f) tt
      ]
  process_statement-Counts i source timestamp null = tt
  process_statement-Counts i source timestamp (boolean b) = tt
  process_statement-Counts i source timestamp (number literal nonzero) = tt
  process_statement-Counts i source timestamp (text s) = tt
  process_statement-Counts i source timestamp (array js) = tt

  -- What the result of a document says: `processed` statements, and the links among the calls.
  unfoldable pub Summary : List Json → List VexCall → ℕ × ℕ → Type 0
  Summary statements calls (processed, linked) =
      (processed ≡ length statements) × (linked ≡ defect_links calls)

  process_statements-Summary :
      (ids : ℕ → String) (n : ℕ) (source timestamp : Json) (statements : List Json)
      → Ok
          (Summary statements
            (process_statements is_vuln_id is_purl ids n source timestamp statements).calls)
          (process_statements is_vuln_id is_purl ids n source timestamp statements).outcome
  unfolding process_statements Summary Ok defect_links
  process_statements-Summary ids n source timestamp [] = (refl, refl)
  process_statements-Summary ids n source timestamp (stmt ∷ statements) =
      let now = process_statement is_vuln_id is_purl (ids n) source timestamp stmt in
      let rest = process_statements is_vuln_id is_purl ids (n + 1) source timestamp statements in
      elim (Result-cases now.outcome) [
        | inr (e, f) ↦ rw (process_statements, f) tt
        | inl (linked, f) ↦
            rw (process_statements, f)
              (bind-Ok (Summary (stmt ∷ statements) (now.calls ++ rest.calls)) rest.outcome _
                (λ (processed, more) g.
                  let here : linked ≡ defect_links now.calls =
                    subst (λ r. Ok (λ l. l ≡ defect_links now.calls) r) f
                      (unfold Counts in process_statement-Counts (ids n) source timestamp stmt) in
                  let there : Summary statements rest.calls (processed, more) =
                    subst (λ r. Ok (Summary statements rest.calls) r) g
                      (process_statements-Summary ids (n + 1) source timestamp statements) in
                  (
                    omega (arith, there.0),
                    omega (arith, there.1, here, defect_links-append now.calls rest.calls),
                  )))
      ]

  -- When `process_vex_document` reports a document, the document has passed the validation, the
  -- first count is the number of its statements, and the second that of the links between a
  -- statement and a vulnerability among the calls.
  pub process_vex_document-Summary :
      (ids : ℕ → String) (document_id : String) (document : Json) (counts : ℕ × ℕ)
      → (process_vex_document is_vuln_id is_purl ids document_id document).outcome ≡ ok counts
      → (fs : Fields) × (statements : List Json) × (validate_document document
          ≡ ok (fs, statements))
        × Summary statements
            (process_vex_document is_vuln_id is_purl ids document_id document).calls
            counts
  unfolding process_vex_document Ok
  process_vex_document-Summary ids document_id document counts e =
      elim (Result-cases (validate_document document)) [
        | inr (x, f) ↦ absurd (let h = rw (process_vex_document, f) at e in cc)
        | inl ((fs, statements), f) ↦ (
          fs,
          statements,
          f,
          rw (process_vex_document, f)
              (subst
                (λ r.
                  Ok
                    (Summary statements
                      (process_statements is_vuln_id is_purl ids 0
                        (get_or "@id" (text document_id) fs) (get_or "timestamp" (text "") fs)
                        statements).calls)
                    r)
                (rw (process_vex_document, f) at e)
                (process_statements-Summary ids 0 (get_or "@id" (text document_id) fs)
                  (get_or "timestamp" (text "") fs) statements)),
        )
      ]
