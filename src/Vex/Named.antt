-- ===== src/Vex/Named.antt =====
-- Which package URLs the products of a document name, and that `_extract_purl` takes no others.
use sbom_graph.Prelude.{
  ◌≡◌, ◌⊎◌, ◌∙◌, Option, if◌then◌else◌, inl, inr, refl, sym, ap, subst, Bool, true, false, none,
  some, List, String, ◌==◌, Bool-cases, In,
}
use sbom_graph.Json.{
  Json, null, boolean, number, text, array, object, nil, cons, Items, items, Fields, Result, ok,
  ◌>>=◌, truthy, blank, entry, get, get_or, or_else, as_dict, iterate, Result-cases,
}
use sbom_graph.Vex.{VexFault, validate_document, extract_purl}

ok_eq : {A : Type 0} {a b : A} → ◌≡◌ {A = Result VexFault A} (ok a) (ok b) → a ≡ b
ok_eq e = cc

-- The product is a dictionary whose `identifiers` have this `purl`.
unfoldable pub ProductNames : Json → String → Type 0
ProductNames (object product) purl =
    (identifiers : Fields) × (get "identifiers" product ≡ object identifiers)
    × (get "purl" identifiers ≡ text purl)
ProductNames _ purl = ⊥

-- One of the products of the statement has the `purl` in its `identifiers`.
unfoldable pub StatementNames : Json → String → Type 0
unfolding ProductNames
StatementNames (object stmt) purl =
    (products : List Json) × (iterate {I = VexFault} (get_or "products" (array nil) stmt)
      ≡ ok products)
    × ((product : Json) × In product products × ProductNames product purl)
StatementNames _ purl = ⊥

-- One of the statements of the document does.
unfoldable pub DocumentNames : Json → String → Type 0
unfolding StatementNames
DocumentNames (object document) purl =
    (statements : Items) × (get "statements" document ≡ array statements)
    × ((stmt : Json) × In stmt (items statements) × StatementNames stmt purl)
DocumentNames _ purl = ⊥

module _ (is_vuln_id is_purl : String → Bool) where
  identifiers-cases :
      (j : Json) (identifiers : Fields)
      → as_dict {I = VexFault} (or_else j (object blank)) ≡ ok identifiers
      → (j ≡ object identifiers) ⊎ (identifiers ≡ blank)
  unfolding as_dict or_else truthy
  identifiers-cases null fs e = inr (sym (ok_eq e))
  identifiers-cases (boolean true) fs e = absurd cc
  identifiers-cases (boolean false) fs e = inr (sym (ok_eq e))
  identifiers-cases (number literal true) fs e = absurd cc
  identifiers-cases (number literal false) fs e = inr (sym (ok_eq e))
  identifiers-cases (text s) fs e = elim (Bool-cases (s == "")) [
    | inl f ↦ inr (sym (ok_eq (rw f at e)))
    | inr f ↦ absurd (let h = rw f at e in cc)
  ]
  identifiers-cases (array nil) fs e = inr (sym (ok_eq e))
  identifiers-cases (array (cons j js)) fs e = absurd cc
  identifiers-cases (object blank) fs e = inl (ap object (ok_eq e))
  identifiers-cases (object (entry k j rest)) fs e = inl (ap object (ok_eq e))

  prefixed :
      (s purl : String)
      → ◌≡◌ {A = Result VexFault (Option String)}
          (ok (if is_purl s then some s else none))
          (ok (some purl))
      → is_purl purl ≡ true
  prefixed s purl e = elim (Bool-cases (is_purl s)) [
    | inl f ↦ let h = rw f at e in cc
    | inr f ↦ absurd (let h = rw f at e in cc)
  ]

  by_id :
      (j : Json) (purl : String)
      → ◌≡◌ {A = Result VexFault (Option String)}
          (elim j [ text s ↦ ok (if is_purl s then some s else none) | _ ↦ ok none ])
          (ok (some purl))
      → is_purl purl ≡ true
  by_id (text s) purl e = prefixed s purl e
  by_id null purl e = absurd cc
  by_id (boolean b) purl e = absurd cc
  by_id (number literal nonzero) purl e = absurd cc
  by_id (array js) purl e = absurd cc
  by_id (object fs) purl e = absurd cc

  no_purl : (s : String) → get "purl" blank ≡ text s → ⊥
  unfolding get
  no_purl s e = absurd cc

  -- The `purl` of the identifiers, where it is a text that is not empty; else the `@id`, tested.
  by_identifiers :
      (fs ids : Fields) (purl : String) (j : Json)
      → as_dict {I = VexFault} (or_else (get "identifiers" fs) (object blank)) ≡ ok ids
      → get "purl" ids ≡ j
      → extract_purl is_vuln_id is_purl (object fs) ≡ ok (some purl)
      → (is_purl purl ≡ true) ⊎ ProductNames (object fs) purl
  unfolding ProductNames extract_purl
  by_identifiers fs ids purl (text s) f g e = elim (Bool-cases (s == "")) [
    | inl z ↦ inl (
        by_id (get_or "@id" (text "") fs) purl
          (let h = rw (extract_purl, f) at e in rw (◌>>=◌, g, z) at h))
    | inr z ↦
        let h = rw (extract_purl, f) at e in
        let k = rw (◌>>=◌, g, z) at h in
        let same : s ≡ purl = cc in
        elim (identifiers-cases (get "identifiers" fs) ids f) [
          | inl given ↦ inr (ids, given, g ∙ ap text same)
          | inr empty ↦ absurd (no_purl s (let k = rw empty at g in k))
        ]
  ]
  by_identifiers fs ids purl null f g e = inl (
      by_id (get_or "@id" (text "") fs) purl
        (let h = rw (extract_purl, f) at e in rw (◌>>=◌, g) at h))
  by_identifiers fs ids purl (boolean b) f g e = inl (
      by_id (get_or "@id" (text "") fs) purl
        (let h = rw (extract_purl, f) at e in rw (◌>>=◌, g) at h))
  by_identifiers fs ids purl (number literal nonzero) f g e = inl (
      by_id (get_or "@id" (text "") fs) purl
        (let h = rw (extract_purl, f) at e in rw (◌>>=◌, g) at h))
  by_identifiers fs ids purl (array js) f g e = inl (
      by_id (get_or "@id" (text "") fs) purl
        (let h = rw (extract_purl, f) at e in rw (◌>>=◌, g) at h))
  by_identifiers fs ids purl (object os) f g e = inl (
      by_id (get_or "@id" (text "") fs) purl
        (let h = rw (extract_purl, f) at e in rw (◌>>=◌, g) at h))

  pub extract_purl-named :
      (product : Json) (purl : String)
      → extract_purl is_vuln_id is_purl product ≡ ok (some purl)
      → (is_purl purl ≡ true) ⊎ ProductNames product purl
  unfolding extract_purl
  extract_purl-named (text s) purl e = inl (prefixed s purl e)
  extract_purl-named (object fs) purl e =
      elim (Result-cases (as_dict {I = VexFault} (or_else (get "identifiers" fs) (object blank)))) [
        | inr (x, f) ↦ absurd (let h = rw (extract_purl, f) at e in cc)
        | inl (ids, f) ↦ by_identifiers fs ids purl (get "purl" ids) f refl e
      ]
  extract_purl-named null purl e = absurd cc
  extract_purl-named (boolean b) purl e = absurd cc
  extract_purl-named (number literal nonzero) purl e = absurd cc
  extract_purl-named (array js) purl e = absurd cc

listed :
    (document fs : Fields) (statements : List Json) (j : Json)
    → get "statements" document ≡ j
    → validate_document (object document) ≡ ok (fs, statements)
    → (js : Items) × (get "statements" document ≡ array js) × (statements ≡ items js)
unfolding validate_document items
listed document fs statements (array (cons j js)) g e =
    let h = ok_eq (rw (validate_document, g) at e) in (cons j js, g, sym (ap (λ p. p.1) h))
listed document fs statements (array nil) g e =
    absurd (let h = rw (validate_document, g) at e in cc)
listed document fs statements null g e = absurd (let h = rw (validate_document, g) at e in cc)
listed document fs statements (boolean b) g e =
    absurd (let h = rw (validate_document, g) at e in cc)
listed document fs statements (number literal nonzero) g e =
    absurd (let h = rw (validate_document, g) at e in cc)
listed document fs statements (text s) g e = absurd (let h = rw (validate_document, g) at e in cc)
listed document fs statements (object os) g e =
    absurd (let h = rw (validate_document, g) at e in cc)

-- The statements that are processed are those of the document.
pub validate_document-named :
    (document : Json) (fs : Fields) (statements : List Json)
    → validate_document document ≡ ok (fs, statements)
    → (stmt : Json) → In stmt statements
    → (purl : String) → StatementNames stmt purl
    → DocumentNames document purl
unfolding DocumentNames validate_document
validate_document-named (object document) fs statements e stmt m purl n =
    let (js, given, same) = listed document fs statements (get "statements" document) refl e in
    (js, given, (stmt, subst (λ l. In stmt l) same m, n))
validate_document-named null fs statements e stmt m purl n = absurd cc
validate_document-named (boolean b) fs statements e stmt m purl n = absurd cc
validate_document-named (number literal nonzero) fs statements e stmt m purl n = absurd cc
validate_document-named (text s) fs statements e stmt m purl n = absurd cc
validate_document-named (array js) fs statements e stmt m purl n = absurd cc
