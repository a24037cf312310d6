-- ===== src/Vex/Links.antt =====
-- What the OpenVEX processor links.
use sbom_graph.Prelude.{
  ℕ, ◌+◌, ◌≡◌, ◌≢◌, ◌⊎◌, inl, inr, refl, subst, Bool, true, none, some, List, [], ◌∷◌, ◌++◌, String,
  ◌==◌, text_ne, Bool-cases, In,
}
use sbom_graph.Members.{member, member_iff}
use sbom_graph.Json.{
  Json, null, boolean, number, text, array, object, nil, cons, Fields, ok, blank, entry, invalid,
  raises, untyped, get, get_or, or_else, as_dict, iterate, Ok, Result-cases,
}
use sbom_graph.Vex.{
  VexFault, VexCall, create_vex_statement, link_vex_to_defect, link_vex_to_version, valid_statuses,
  from_str, validate_document, extract_purl, linked_id, link_products, link_statement,
  link_vulnerability, persist_statement, process_statement, process_statements,
  process_vex_document,
}
use sbom_graph.Vex.Named.{
  ProductNames, StatementNames, DocumentNames, extract_purl-named, validate_document-named,
}

-- The statement was created by one of the calls.
unfoldable pub Stated : String → List VexCall → Type 0
Stated i [] = ⊥
Stated i (create_vex_statement j status a b c d e ∷ seen) = (i ≡ j) ⊎ Stated i seen
Stated i (_ ∷ seen) = Stated i seen

module _ (is_vuln_id is_purl : String → Bool) (named : String → Type 0) where
  -- A call that is allowed after the calls `seen`: a statement has a status of the four, a link
  -- starts at a statement that was created, and goes to a recognised identifier, or to a text that
  -- passes the test for `pkg:` or is named as a `purl`.
  unfoldable pub Allowed : List VexCall → VexCall → Type 0
  Allowed seen (create_vex_statement i status a b c d e) = In status valid_statuses
  Allowed seen (link_vex_to_defect i vuln_id) =
      Stated i seen × (is_vuln_id vuln_id ≡ true) × (vuln_id ≢ "")
  Allowed seen (link_vex_to_version i purl) =
      Stated i seen × (purl ≢ "") × ((is_purl purl ≡ true) ⊎ named purl)

  unfoldable pub Sound : List VexCall → List VexCall → Type 0
  unfolding Allowed
  Sound seen [] = Unit
  Sound seen (c ∷ calls) = Allowed seen c × Sound (c ∷ seen) calls

  Stated-cons :
      (i : String) (c : VexCall) (seen : List VexCall) → Stated i seen → Stated i (c ∷ seen)
  unfolding Stated
  Stated-cons i (create_vex_statement j status a b c d e) seen h = inr h
  Stated-cons i (link_vex_to_defect j k) seen h = h
  Stated-cons i (link_vex_to_version j k) seen h = h

  target :
      (product : Json) (purl : String)
      → extract_purl is_vuln_id is_purl product ≡ ok (some purl)
      → ((s : String) → ProductNames product s → named s)
      → (is_purl purl ≡ true) ⊎ named purl
  target product purl e names = elim (extract_purl-named is_vuln_id is_purl product purl e) [
    | inl h ↦ inl h
    | inr n ↦ inr (names purl n)
  ]

  -- Links from a created statement stay sound whatever is made in between.
  link_products-Sound :
      (i : String) (products : List Json) (seen : List VexCall)
      → Stated i seen
      → ((product : Json)
          → In product products
          → (purl : String) → ProductNames product purl
          → named purl)
      → Sound seen (link_products is_vuln_id is_purl i products).calls
  unfolding link_products Sound Allowed Stated
  link_products-Sound i [] seen h names = tt
  link_products-Sound i (product ∷ products) seen h names =
      let later = λ (p : Json) (m : In p products). names p (inr m) in
      elim (Result-cases (extract_purl is_vuln_id is_purl product)) [
        | inr (e, f) ↦ rw (Sound, f) tt
        | inl (none, f) ↦ rw (Sound, f) (link_products-Sound i products seen h later)
        | inl (some purl, f) ↦
            rw (Sound, f)
              (elim (Bool-cases (purl == "")) [
                | inl e ↦ rw (Sound, e) (link_products-Sound i products seen h later)
                | inr e ↦
                    rw (Sound, e)
                      (
                        (h, text_ne purl "" e, target product purl f (names product (inl refl))),
                        link_products-Sound i products _ h later,
                      )
              ])
      ]

  link_statement-Sound :
      (i : String) (linked : ℕ) (stmt : Fields) (seen : List VexCall)
      → Stated i seen
      → ((purl : String) → StatementNames (object stmt) purl → named purl)
      → Sound seen (link_statement is_vuln_id is_purl i linked stmt).calls
  unfolding link_statement Sound StatementNames
  link_statement-Sound i linked stmt seen h names =
      elim (Result-cases (iterate {I = VexFault} (get_or "products" (array nil) stmt))) [
        | inr (e, f) ↦ rw (Sound, f) tt
        | inl (products, f) ↦
            rw (Sound, f)
              (link_products-Sound i products seen h
                (λ product m purl n. names purl (products, f, (product, m, n))))
      ]

  linked_id-ok :
      (j : Json)
      → linked_id is_vuln_id is_purl j ≢ ""
      → is_vuln_id (linked_id is_vuln_id is_purl j) ≡ true
  unfolding linked_id
  linked_id-ok (text s) ne = elim (Bool-cases (is_vuln_id s)) [
    | inl e ↦ rw e e
    | inr e ↦ absurd (ne (rw e refl))
  ]
  linked_id-ok null ne = absurd (ne refl)
  linked_id-ok (boolean b) ne = absurd (ne refl)
  linked_id-ok (number literal nonzero) ne = absurd (ne refl)
  linked_id-ok (array js) ne = absurd (ne refl)
  linked_id-ok (object fs) ne = absurd (ne refl)

  link_vulnerability-Sound :
      (i : String) (stmt : Fields) (seen : List VexCall)
      → Stated i seen
      → ((purl : String) → StatementNames (object stmt) purl → named purl)
      → Sound seen (link_vulnerability is_vuln_id is_purl i stmt).calls
  unfolding link_vulnerability Sound Allowed Stated
  link_vulnerability-Sound i stmt seen h names =
      elim (Result-cases
        (as_dict {I = VexFault} (or_else (get "vulnerability" stmt) (object blank)))) [
          | inr (e, f) ↦ rw (Sound, f) tt
          | inl (v, f) ↦
              let id = or_else (get "@id" v) (get_or "name" (text "") v) in
              rw (Sound, f)
                (elim (Bool-cases (linked_id is_vuln_id is_purl id == "")) [
                  | inl e ↦ rw (Sound, e) (link_statement-Sound i 0 stmt seen h names)
                  | inr e ↦
                      rw (Sound, e)
                        (
                          (h, linked_id-ok id (text_ne _ "" e), text_ne _ "" e),
                          link_statement-Sound i 1 stmt _ h names,
                        )
                ])
        ]

  from_str-valid : (j : Json) → Ok (λ status. In status valid_statuses) (from_str j)
  unfolding from_str Ok
  from_str-valid (text s) = elim (Bool-cases (member s valid_statuses)) [
    | inl e ↦ rw (from_str, e) ((member_iff s valid_statuses).0 e)
    | inr e ↦ rw (from_str, e) tt
  ]
  from_str-valid (array nil) = tt
  from_str-valid (array (cons j js)) = tt
  from_str-valid (object blank) = tt
  from_str-valid (object (entry k j fs)) = tt
  from_str-valid null = tt
  from_str-valid (boolean b) = tt
  from_str-valid (number literal nonzero) = tt

  process_statement-Sound :
      (i : String) (source timestamp stmt : Json) (seen : List VexCall)
      → ((purl : String) → StatementNames stmt purl → named purl)
      → Sound seen (process_statement is_vuln_id is_purl i source timestamp stmt).calls
  unfolding process_statement persist_statement Sound Allowed Stated Ok
  process_statement-Sound i source timestamp (object stmt) seen names =
      elim (Result-cases (from_str (get_or "status" (text "") stmt))) [
        | inl (status, f) ↦
            rw (Sound, f)
              (
                subst (λ r. Ok (λ s. In s valid_statuses) r) f
                    (from_str-valid (get_or "status" (text "") stmt)),
                link_vulnerability-Sound i stmt _ (inl refl) names,
              )
        | inr (invalid fault, f) ↦ rw (Sound, f) tt
        | inr (raises, f) ↦ rw (Sound, f) tt
        | inr (untyped, f) ↦ rw (Sound, f) tt
      ]
  process_statement-Sound i source timestamp null seen names = tt
  process_statement-Sound i source timestamp (boolean b) seen names = tt
  process_statement-Sound i source timestamp (number literal nonzero) seen names = tt
  process_statement-Sound i source timestamp (text s) seen names = tt
  process_statement-Sound i source timestamp (array js) seen names = tt

  Sound-append :
      (seen xs ys : List VexCall)
      → Sound seen xs
      → ((seen' : List VexCall) → Sound seen' ys)
      → Sound seen (xs ++ ys)
  unfolding Sound
  Sound-append seen [] ys h f = f seen
  Sound-append seen (x ∷ xs) ys h f = (h.0, Sound-append (x ∷ seen) xs ys h.1 f)

  process_statements-Sound :
      (ids : ℕ → String) (n : ℕ) (source timestamp : Json) (statements : List Json)
      (seen : List VexCall)
      → ((stmt : Json)
          → In stmt statements
          → (purl : String) → StatementNames stmt purl
          → named purl)
      → Sound seen (process_statements is_vuln_id is_purl ids n source timestamp statements).calls
  unfolding process_statements Sound
  process_statements-Sound ids n source timestamp [] seen names = tt
  process_statements-Sound ids n source timestamp (stmt ∷ statements) seen names =
      let now = λ (before : List VexCall).
        process_statement-Sound (ids n) source timestamp stmt before (names stmt (inl refl)) in
      elim (Result-cases
        (process_statement is_vuln_id is_purl (ids n) source timestamp stmt).outcome) [
          | inr (e, f) ↦ rw (Sound, f) (now seen)
          | inl (linked, f) ↦
              rw (Sound, f)
                (Sound-append seen _ _ (now seen) (λ seen'.
                  process_statements-Sound ids (n + 1) source timestamp statements seen'
                    (λ s m. names s (inr m))))
        ]

-- In the calls that `process_vex_document` makes for any document, also when an exception ends them,
-- every statement created has one of the four statuses, every link starts at a statement that was
-- created before, and goes to an identifier that is recognised and not empty, or to a text that is
-- not empty and passes the test for `pkg:`, or else is the `purl` of the `identifiers` of a product
-- of the document, which the code does not test.
pub process_vex_document-Sound :
    (is_vuln_id is_purl : String → Bool) (ids : ℕ → String) (document_id : String) (document : Json)
    → Sound is_vuln_id is_purl
        (DocumentNames document)
        []
        (process_vex_document is_vuln_id is_purl ids document_id document).calls
unfolding process_vex_document Sound
process_vex_document-Sound is_vuln_id is_purl ids document_id document =
    elim (Result-cases (validate_document document)) [
      | inr (e, f) ↦ rw (Sound, f) tt
      | inl ((fs, statements), f) ↦
          rw (Sound, f)
            (process_statements-Sound is_vuln_id is_purl (DocumentNames document) ids 0
              (get_or "@id" (text document_id) fs) (get_or "timestamp" (text "") fs) statements []
              (validate_document-named document fs statements f))
    ]
