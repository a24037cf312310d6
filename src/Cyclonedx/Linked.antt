-- ===== src/Cyclonedx/Linked.antt =====
-- Every library of a document is linked.
use sbom_graph.Prelude.{
  ◌≡◌, ◌⊎◌, inl, inr, refl, sym, ◌∙◌, subst, Option, none, some, List, [], ◌∷◌, String, ◌==◌,
  eq_iff, Bool-cases, Option-cases, In, In-append_left, In-append_right, In-append_cases,
}
use sbom_graph.Members.{In-cases}
use sbom_graph.Json.{Json, ok, Ok, bind-Ok, Fields, object, index, as_dict, as_key, Result-cases}
use sbom_graph.Dict.{
  Dict, put, put_all, lookup, key_list, lookup_here, union, difference, In-union_left,
  In-union_right, In-difference,
}
use sbom_graph.Cyclonedx.{Fault}
use sbom_graph.Cyclonedx.Parts.{Version, parse_application_from_cyclone_dx}
use sbom_graph.Cyclonedx.Linking.{
  Parsed, Sections, read_sections, assemble, mentioned, link_unlinked, parse_cyclone_dx_json,
}

same_set : {x y : List String} → some x ≡ some y → x ≡ y
same_set e = cc

-- Replacing the set of a reference by a larger one forgets no reference.
mentioned-put :
    (r k : String) (new : List String) (d : Dict (List String))
    → ((old : List String) → lookup k d ≡ some old → In r old → In r new)
    → In r (mentioned d)
    → In r (mentioned (put k new d))
unfolding mentioned put lookup
mentioned-put r k new [] larger m = elim m [ ]
mentioned-put r k new ((j, deps) ∷ d) larger m = elim (Bool-cases (j == k)) [
  | inl e ↦ rw e (elim m [
    | inl same ↦ inl (same ∙ (eq_iff j k).0 e)
    | inr m' ↦ inr (elim (In-append_cases r deps (mentioned d) m') [
      | inl old ↦ In-append_left r new (mentioned d) (larger deps (rw e) old)
      | inr later ↦ In-append_right r new (mentioned d) later
    ])
  ])
  | inr e ↦ rw e (elim m [
    | inl same ↦ inl same
    | inr m' ↦ inr (elim (In-append_cases r deps (mentioned d) m') [
      | inl old ↦ In-append_left r deps (mentioned (put k new d)) old
      | inr later ↦
          In-append_right r deps (mentioned (put k new d))
            (mentioned-put r k new d (λ old found. larger old (rw e found)) later)
    ])
  ])
]

-- The set put is mentioned.
mentioned_new :
    (r k : String) (new : List String) (d : Dict (List String))
    → In r new
    → In r (mentioned (put k new d))
unfolding mentioned put
mentioned_new r k new [] m = inr (In-append_left r new [] m)
mentioned_new r k new ((j, deps) ∷ d) m = elim (Bool-cases (j == k)) [
  | inl e ↦ rw e (inr (In-append_left r new (mentioned d) m))
  | inr e ↦
      rw e (inr (In-append_right r deps (mentioned (put k new d)) (mentioned_new r k new d m)))
]

-- After the linking every reference of a library is mentioned, as a parent or as a dependency, and
-- so is whatever was mentioned before.
link_unlinked-mentioned :
    (bom_ref : String) (refs : List String) (d : Dict (List String)) (r : String)
    → In r refs ⊎ In r (mentioned d)
    → In r (mentioned (link_unlinked bom_ref refs d))
unfolding link_unlinked
link_unlinked-mentioned bom_ref refs d r which =
    let unlinked : ¬ In r (mentioned d) → In r (difference refs (mentioned d)) = λ absent.
      elim which [
        | inl m ↦ In-difference r refs (mentioned d) m absent
        | inr m ↦ absurd (absent m)
      ] in
    link_cases bom_ref r d (difference refs (mentioned d))
      (elim (In-cases r (mentioned d)) [ inl m ↦ inr m | inr absent ↦ inl (unlinked absent) ])
  where
    link_cases :
        (bom_ref r : String) (d : Dict (List String)) (unlinked : List String)
        → In r unlinked ⊎ In r (mentioned d)
        → In r (
            mentioned (elim unlinked [
              | [] ↦ d
              | ref ∷ more ↦ elim (lookup bom_ref d) [
                | none ↦ put bom_ref (ref ∷ more) d
                | some deps ↦ put bom_ref (union deps (ref ∷ more)) d
              ]
            ]))
    link_cases bom_ref r d [] which = elim which [ inl m ↦ elim m [ ] | inr m ↦ m ]
    link_cases bom_ref r d (u ∷ us) which = elim (Option-cases (lookup bom_ref d)) [
      | inl e ↦ rw e (elim which [
        | inl m ↦ mentioned_new r bom_ref (u ∷ us) d m
        | inr m ↦ mentioned-put r bom_ref (u ∷ us) d (λ old found k. cc) m
      ])
      | inr (deps, e) ↦ rw e (elim which [
        | inl m ↦ mentioned_new r bom_ref (union deps (u ∷ us)) d (In-union_right r deps (u ∷ us) m)
        | inr m ↦
            mentioned-put r bom_ref (union deps (u ∷ us)) d
              (λ old found k.
                In-union_left r deps (u ∷ us) (subst (λ o. In r o) (same_set (sym found ∙ e)) k))
              m
      ])
    ]

key-put :
    {A : Type 0} (r k : String) (v : A) (d : Dict A)
    → In r (key_list (put k v d))
    → (r ≡ k) ⊎ In r (key_list d)
unfolding key_list put
key-put r k v [] m = elim m [ inl same ↦ inl same | inr n ↦ elim n [ ] ]
key-put r k v ((j, w) ∷ d) m = elim (Bool-cases (j == k)) [
  | inl e ↦ elim (rw e at m) [ inl same ↦ inl same | inr later ↦ inr (inr later) ]
  | inr e ↦ elim (rw e at m) [
    | inl same ↦ inr (inl same)
    | inr later ↦ elim (key-put r k v d later) [ inl same ↦ inl same | inr old ↦ inr (inr old) ]
  ]
]

-- What the linking promises of a document's dictionaries: the root `b` is the application, and any
-- other project is mentioned in the dependencies.
pub record IsLinked (app_id : String) (parsed : Parsed) : Type 0 where
  pub root : String
  pub version : Version
  pub found : lookup root parsed.projects ≡ some version
  pub is_app : version.project.application_id ≡ some app_id
  pub linked :
      (r : String)
      → In r (key_list parsed.projects)
      → (r ≡ root) ⊎ In r (mentioned parsed.dependency_versions)

assemble-IsLinked :
    (app_id : String) (sections : Sections) (bom_ref : String) (version : Version)
    → version.project.application_id ≡ some app_id
    → IsLinked app_id (assemble sections bom_ref version)
unfolding assemble
assemble-IsLinked app_id sections bom_ref version is_app =
    let projects = put_all sections.components [] in
    record {
      root = bom_ref;
      version = version;
      found = lookup_here bom_ref version projects;
      is_app = is_app;
      linked = λ r m. elim (key-put r bom_ref version projects m) [
        | inl same ↦ inl same
        | inr old ↦ inr (
            link_unlinked-mentioned bom_ref (key_list projects) (put_all sections.dependencies []) r
              (inl old))
      ];
    }

parse_application-Ok :
    (lower : String → String) (app_id public_app_id : String) (scan_id : Json) (metadata : Fields)
    (url : Option String)
    → Ok
        (λ (p : Json × Version). p.1.project.application_id ≡ some app_id)
        (parse_application_from_cyclone_dx lower app_id public_app_id scan_id metadata url)
unfolding parse_application_from_cyclone_dx Ok
parse_application-Ok lower app_id public_app_id scan_id metadata url =
    elim (Result-cases (index {I = Fault} "component" (object metadata))) [
      | inr (e, f) ↦ rw (parse_application_from_cyclone_dx, f) tt
      | inl (c, f) ↦
          rw (parse_application_from_cyclone_dx, f)
            (elim (Result-cases (as_dict {I = Fault} c)) [
              | inr (e, g) ↦ rw (Ok, g) tt
              | inl (component, g) ↦ rw (Ok, g) refl
            ])
    ]

parse_cyclone_dx_json-Ok :
    (lower : String → String) (app_id public_app_id : String) (url : Option String)
    (json_data : Json)
    → Ok (IsLinked app_id) (parse_cyclone_dx_json lower app_id public_app_id url json_data)
unfolding parse_cyclone_dx_json Ok
parse_cyclone_dx_json-Ok lower app_id public_app_id url json_data =
    bind-Ok (IsLinked app_id) (read_sections lower json_data) _ (λ sections f.
      bind-Ok (IsLinked app_id)
        (parse_application_from_cyclone_dx lower app_id public_app_id sections.scan_id
          sections.metadata url)
        _
        (λ (root_ref, version) g. bind-Ok (IsLinked app_id) (as_key root_ref) _ (λ bom_ref h.
          assemble-IsLinked app_id sections bom_ref version (
            subst (λ r. Ok (λ (p : Json × Version). p.1.project.application_id ≡ some app_id) r) g
              (parse_application-Ok lower app_id public_app_id sections.scan_id sections.metadata
                url)))))

-- Whatever document `process_cyclone_dx_json` reads to the end, in the dictionaries it persists
-- there is one project, the root, whose version is that of the application, and the reference of
-- every other project occurs among the dependencies, as a parent or as the dependency of one.
pub parse_cyclone_dx_json-IsLinked :
    (lower : String → String) (app_id public_app_id : String) (url : Option String)
    (json_data : Json) (parsed : Parsed)
    → parse_cyclone_dx_json lower app_id public_app_id url json_data ≡ ok parsed
    → IsLinked app_id parsed
unfolding Ok
parse_cyclone_dx_json-IsLinked lower app_id public_app_id url json_data parsed e =
    subst (λ r. Ok (IsLinked app_id) r) e
      (parse_cyclone_dx_json-Ok lower app_id public_app_id url json_data)
