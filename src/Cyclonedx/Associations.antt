-- ===== src/Cyclonedx/Associations.antt =====
-- The associations of defects with versions link what the document has.
use sbom_graph.Prelude.{
  ◌≡◌, ◌⊎◌, inl, inr, sym, ap, subst, Option, none, some, List, [], ◌∷◌, String, ◌==◌, Bool-cases,
  Option-cases, In,
}
use sbom_graph.Json.{
  null, boolean, number, array, object, nil, get, get_or, as_dict, as_key, iterate, Json, text,
  truthy, Ok, bind-Ok,
}
use sbom_graph.Dict.{Dict, put, lookup, values, In-values}
use sbom_graph.Cyclonedx.Parts.{Version, Defect}
use sbom_graph.Cyclonedx.Persisting.{
  find_affected, add_found, get_affects_list, associate, version_defects,
}

-- What the associations of the vulnerabilities are made of: known defects and known versions.
unfoldable pub Known : List Defect → List Version → Dict (Defect × List Version) → Type 0
Known defects versions d =
    (p : Defect × List Version)
    → In p (values d)
    → In p.0 defects × ((v : Version) → In v p.1 → In v versions)

values-put :
    {A : Type 0} (k : String) (v w : A) (d : Dict A)
    → In w (values (put k v d))
    → (w ≡ v) ⊎ In w (values d)
unfolding values put
values-put k v w [] m = elim m [ inl same ↦ inl same | inr n ↦ elim n [ ] ]
values-put k v w ((j, x) ∷ d) m = elim (Bool-cases (j == k)) [
  | inl e ↦ elim (rw e at m) [ inl same ↦ inl same | inr later ↦ inr (inr later) ]
  | inr e ↦ elim (rw e at m) [
    | inl same ↦ inr (inl same)
    | inr later ↦ elim (values-put k v w d later) [ inl same ↦ inl same | inr old ↦ inr (inr old) ]
  ]
]

-- The versions that the `affects` lists name are projects of the document.
unfoldable pub Among : Dict Version → List Version → Type 0
Among projects found = (v : Version) → In v found → In v (values projects)

find_affected-Ok :
    (projects : Dict Version) (ref : Json)
    → Ok
        (λ found. (v : Version) → found ≡ some v → In v (values projects))
        (find_affected projects ref)
unfolding find_affected Ok
find_affected-Ok projects (text ref) = elim (Bool-cases (truthy (text ref))) [
  | inl e ↦ rw e (λ v found. In-values ref v projects found)
  | inr e ↦ rw e (λ v found. cc)
]
find_affected-Ok projects (array js) = elim (Bool-cases (truthy (array js))) [
  | inl e ↦ rw e tt
  | inr e ↦ rw e (λ v found. cc)
]
find_affected-Ok projects (object fs) = elim (Bool-cases (truthy (object fs))) [
  | inl e ↦ rw e tt
  | inr e ↦ rw e (λ v found. cc)
]
find_affected-Ok projects null = λ v found. cc
find_affected-Ok projects (boolean b) = λ v found. cc
find_affected-Ok projects (number literal nonzero) = λ v found. cc

add_found-Among :
    (projects : Dict Version) (found : Option Version) (rest : List Version)
    → ((v : Version) → found ≡ some v → In v (values projects))
    → Among projects rest
    → Among projects (add_found found rest)
unfolding add_found Among
add_found-Among projects none rest h k = k
add_found-Among projects (some version) rest h k =
    λ v m. elim m [ inl same ↦ h v (ap (λ x. some x) (sym same)) | inr n ↦ k v n ]

get_affects_list-Ok :
    (projects : Dict Version) (affects : List Json)
    → Ok (Among projects) (get_affects_list projects affects)
unfolding get_affects_list Ok Among
get_affects_list-Ok projects [] = λ v m. elim m [ ]
get_affects_list-Ok projects (entry ∷ affects) = bind-Ok (Among projects) (as_dict entry) _ (λ fs f.
    bind-Ok (Among projects) (find_affected projects (get "ref" fs)) _ (λ found g.
      bind-Ok (Among projects) (get_affects_list projects affects) _ (λ rest h.
        add_found-Among projects found rest
          (subst (λ r. Ok (λ found. (v : Version) → found ≡ some v → In v (values projects)) r) g
            (find_affected-Ok projects (get "ref" fs)))
          (subst (λ r. Ok (Among projects) r) h (get_affects_list-Ok projects affects)))))

Known-put :
    (projects : Dict Version) (defects : List Defect) (id : String) (defect : Defect)
    (affected : List Version) (d : Dict (Defect × List Version))
    → In defect defects
    → Among projects affected
    → Known defects (values projects) d
    → Known defects (values projects) (put id (defect, affected) d)
unfolding Known Among
Known-put projects defects id defect affected d m among known p n =
    elim (values-put id (defect, affected) p d n) [
      | inl same ↦
          subst
            (λ (q : Defect × List Version).
              In q.0 defects × ((v : Version) → In v q.1 → In v (values projects)))
            (sym same) (m, among)
      | inr old ↦ known p old
    ]

module _ (defects : Dict Defect) (projects : Dict Version) where
  abbrev pub KnownHere : Dict (Defect × List Version) → Type 0
  KnownHere d = Known (values defects) (values projects) d

  associate-Ok :
      (vuln : Json) (d : Dict (Defect × List Version))
      → KnownHere d
      → Ok KnownHere (associate defects projects vuln d)
  unfolding associate Ok
  associate-Ok vuln d known = bind-Ok KnownHere (as_dict vuln) _ (λ fs f.
      elim (Bool-cases (truthy (get "id" fs))) [
        | inr e ↦ rw (Ok, e) known
        | inl e ↦
            rw (Ok, e)
              (bind-Ok KnownHere (as_key (get "id" fs)) _ (λ id g.
                elim (Option-cases (lookup id defects)) [
                  | inl none_found ↦ rw (Ok, none_found) known
                  | inr (defect, found) ↦
                      rw (Ok, found)
                        (bind-Ok KnownHere (iterate (get_or "affects" (array nil) fs)) _
                          (λ entries h.
                            bind-Ok KnownHere (get_affects_list projects entries) _ (λ affected k.
                              Known-put projects (values defects) id defect affected d
                                (In-values id defect defects found)
                                (subst (λ r. Ok (Among projects) r) k
                                  (get_affects_list-Ok projects entries))
                                known)))
                ]))
      ])

  pub version_defects-Ok :
      (vulns : List Json) (d : Dict (Defect × List Version))
      → KnownHere d
      → Ok KnownHere (version_defects defects projects vulns d)
  unfolding version_defects Ok
  version_defects-Ok [] d known = known
  version_defects-Ok (vuln ∷ vulns) d known =
      bind-Ok KnownHere (associate defects projects vuln d) _ (λ d' f.
        version_defects-Ok vulns d' (subst (λ r. Ok KnownHere r) f (associate-Ok vuln d known)))
