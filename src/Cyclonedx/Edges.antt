-- ===== src/Cyclonedx/Edges.antt =====
-- The dependency edges that are persisted are those of the dependencies' dictionary.
use sbom_graph.Prelude.{
  ◌≡◌, ◌↔◌, inl, inr, refl, sym, ap, ◌∙◌, subst, some, List, [], ◌∷◌, String, Option-cases, In,
  In-append_left, In-append_right, In-append_cases,
}
use sbom_graph.Dict.{Dict, lookup}
use sbom_graph.Cyclonedx.Parts.{Version}
use sbom_graph.Cyclonedx.Persisting.{create_dependency, persist_children, persist_dependencies}

module _ (projects : Dict Version) where
  -- One of `refs` is a project of the version `child`.
  unfoldable pub Child : List String → Version → Type 0
  Child refs child = (dep_ref : String) × In dep_ref refs × (lookup dep_ref projects ≡ some child)

  persist_children_iff :
      (parent : Version) (refs : List String) (p c : Version)
      → In (create_dependency p c) (persist_children projects parent refs)
        ↔ ((p ≡ parent) × Child refs c)
  unfolding persist_children Child
  persist_children_iff parent [] p c = (λ m. elim m [ ], λ (same, (ref, m, e)). elim m [ ])
  persist_children_iff parent (ref ∷ refs) p c =
      let (to, from) = persist_children_iff parent refs p c in
      elim (Option-cases (lookup ref projects)) [
        | inl e ↦
            rw (persist_children, e)
              (
                λ m. let (same, (r, n, f)) = to m in (same, (r, inr n, f)),
                λ (same, (r, n, f)). elim n [
                  | inl here ↦ absurd (let g = sym (ap (λ x. lookup x projects) here) ∙ f in cc)
                  | inr later ↦ from (same, (r, later, f))
                ],
              )
        | inr (child, e) ↦
            rw (persist_children, e)
              (
                λ m. elim m [
                  | inl here ↦ (parent_eq here, (ref, inl refl, e ∙ sym (child_eq here)))
                  | inr later ↦ let (same, (r, n, f)) = to later in (same, (r, inr n, f))
                ],
                λ (same, (r, n, f)). elim n [
                  | inl here ↦
                      inl (edge_eq same (sym e ∙ ap (λ x. lookup x projects) (sym here) ∙ f))
                  | inr later ↦ inr (from (same, (r, later, f)))
                ],
              )
      ]
    where
      parent_eq : {a b c d : Version} → create_dependency a b ≡ create_dependency c d → a ≡ c
      parent_eq e = cc

      child_eq :
          {a b c d : Version} → create_dependency a b ≡ create_dependency c d → some b ≡ some d
      child_eq e = cc

      edge_eq :
          {a b c d : Version}
          → a ≡ c
          → some d ≡ some b
          → create_dependency a b ≡ create_dependency c d
      edge_eq e f = cc

  same_version : {a b : Version} → some a ≡ some b → a ≡ b
  same_version e = cc

  -- `persist_dependencies` creates the dependency of `c` for `p` exactly when some reference of the
  -- dependencies is a project of the version `p`, and among its dependencies there is a reference
  -- that is a project of the version `c`.
  pub persist_dependencies_iff :
      (dependency_versions : Dict (List String)) (p c : Version)
      → In (create_dependency p c) (persist_dependencies dependency_versions projects) ↔ (
          (ref : String) × (refs : List String) × In (ref, refs) dependency_versions
          × (lookup ref projects ≡ some p)
          × Child refs c)
  unfolding persist_dependencies
  persist_dependencies_iff [] p c = (λ m. elim m [ ], λ (ref, refs, m, e, k). elim m [ ])
  persist_dependencies_iff ((ref, refs) ∷ dependencies) p c =
      let (to, from) = persist_dependencies_iff dependencies p c in
      elim (Option-cases (lookup ref projects)) [
        | inl e ↦
            rw (persist_dependencies, e)
              (
                λ m. let (r, rs, n, f, k) = to m in (r, rs, inr n, f, k),
                λ (r, rs, n, f, k). elim n [
                  | inl here ↦ absurd (
                      let g =
                        sym (ap (λ (x : String × List String). lookup x.0 projects) here) ∙ f in
                      let h = sym e ∙ g in cc)
                  | inr later ↦ from (r, rs, later, f, k)
                ],
              )
        | inr (parent, e) ↦
            rw (persist_dependencies, e)
              (
                λ m. elim (In-append_cases _ (persist_children projects parent refs) _ m) [
                  | inl here ↦
                      let (same, child) = (persist_children_iff parent refs p c).0 here in
                      (ref, refs, inl refl, e ∙ ap (λ x. some x) (sym same), child)
                  | inr later ↦ let (r, rs, n, f, k) = to later in (r, rs, inr n, f, k)
                ],
                λ (r, rs, n, f, k). elim n [
                  | inl here ↦
                      let found =
                        sym (ap (λ (x : String × List String). lookup x.0 projects) here) ∙ f in
                      In-append_left _ (persist_children projects parent refs) _ (
                        (persist_children_iff parent refs p c).1 (
                          same_version (sym found ∙ e),
                          subst (λ xs. Child xs c) (ap (λ (x : String × List String). x.1) here) k,
                        ))
                  | inr later ↦
                      In-append_right _ (persist_children projects parent refs) _
                        (from (r, rs, later, f, k))
                ],
              )
      ]
