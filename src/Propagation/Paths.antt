-- ===== src/Propagation/Paths.antt =====
-- What `_propagate` computes as the minimal path scores, over all packages in their order.
use sbom_graph.Prelude.{
  ℕ, ◌<◌, ◌≡◌, ◌≢◌, inl, inr, refl, sym, ◌∙◌, subst, some, List, [], ◌∷◌, ◌++◌, String, In,
  In-append_right, In-append_cases, Pairwise, All-In,
}
use mathlib.Core.List.{append-nil, append_assoc}
use sbom_graph.Dict.{Dict, lookup, key_list, lookup_other, key-lookup, lookup-key}
use sbom_graph.Propagation.{children_of}
use sbom_graph.Propagation.Rounds.{Before, IsEdge, IsOrdered}
use sbom_graph.Propagation.Order.{
  reverse_topological_sort_total, reverse_topological_sort-IsOrdered,
}
use sbom_graph.Propagation.Scores.{
  Floats, Scores, scored_deps, store, score_purl, score_all, propagate,
}
use sbom_graph.Propagation.Worst.{IsOrder, IsWorst, Known, score_purl-Known}

-- What stands before the one `p` of a list is what `p` stands behind.
In-front :
    (d p : String) (done xs front back : List String)
    → Pairwise (λ (x y : String). x ≢ y) (done ++ p ∷ xs)
    → done ++ p ∷ xs ≡ front ++ p ∷ back
    → In d front
    → In d done
In-front d p done xs [] back h e m = elim m [ ]
In-front d p [] xs (f ∷ front) back h e m =
    let tails : xs ≡ front ++ p ∷ back = cc in
    absurd (
      All-In (λ y. p ≢ y) p xs h.0
        (subst (λ ys. In p ys) (sym tails) (In-append_right p front (p ∷ back) (inl refl))) refl)
In-front d p (a ∷ done) xs (f ∷ front) back h e m =
    let heads : a ≡ f = cc in
    let tails : done ++ p ∷ xs ≡ front ++ p ∷ back = cc in
    elim m [
      | inl same ↦ inl (same ∙ sym heads)
      | inr later ↦ inr (In-front d p done xs front back h.1 tails later)
    ]

front_differs :
    (d p : String) (done xs : List String)
    → Pairwise (λ (x y : String). x ≢ y) (done ++ p ∷ xs)
    → In d done
    → d ≢ p
front_differs d p [] xs h m = elim m [ ]
front_differs d p (a ∷ done) xs h (inl same) = λ e.
    All-In (λ y. a ≢ y) p (done ++ p ∷ xs) h.0 (In-append_right p done (p ∷ xs) (inl refl))
      (sym same ∙ e)
front_differs d p (a ∷ done) xs h (inr later) = front_differs d p done xs h.1 later

module _ {F : Type 0} (fl : Floats F) (order : IsOrder fl) (direct_scores : Dict F)
    (children : Dict (List String)) (alpha decay : F) where
  -- Scoring a package leaves the others as they are.
  score_purl-other :
      (p d : String) (s : Scores F)
      → d ≢ p
      → lookup d (score_purl fl direct_scores children alpha decay p s).min_path
        ≡ lookup d s.min_path
  unfolding score_purl store
  score_purl-other p d s ne = other_cases _ refl
    where
      other_cases :
          (deps : List String)
          → scored_deps (key_list direct_scores) (children_of children p) ≡ deps
          → lookup d (score_purl fl direct_scores children alpha decay p s).min_path
            ≡ lookup d s.min_path
      other_cases [] e = rw (score_purl, e) (lookup_other p d _ s.min_path ne)
      other_cases (dep ∷ deps) e = rw (score_purl, e) (lookup_other p d _ s.min_path ne)

  module _
      (rounded : (q : String) (v : F) → lookup q direct_scores ≡ some v → fl.round_two v ≡ v) where
    score_all-Known :
        (done xs : List String) (s : Scores F)
        → Pairwise (λ (x y : String). x ≢ y) (done ++ xs)
        → IsOrdered (key_list direct_scores) children (done ++ xs)
        → ((x : String) → In x xs → In x (key_list direct_scores))
        → ((d : String) → In d done → Known fl order direct_scores children alpha decay s d)
        → (p : String) → In p (done ++ xs)
        → Known fl order direct_scores children alpha decay
            (score_all fl direct_scores children alpha decay xs s)
            p
    unfolding score_all Known IsOrdered Before
    score_all-Known done [] s h ordered scored known p m =
        known p (subst (λ ys. In p ys) (append-nil done) m)
    score_all-Known done (x ∷ xs) s h ordered scored known p m =
        let snoc = append_assoc done (x ∷ []) xs in
        let (v, own) = key-lookup x direct_scores (scored x (inl refl)) in
        let next = score_purl fl direct_scores children alpha decay x s in
        let now : Known fl order direct_scores children alpha decay next x =
          score_purl-Known fl order direct_scores children alpha decay x s v own rounded (λ d edge.
            let (front, back, e, k) =
              ordered x d (In-append_right x done (x ∷ xs) (inl refl)) edge in
            known d (In-front d x done xs front back h e k)) in
        score_all-Known (done ++ x ∷ []) xs next
          (subst (λ ys. Pairwise (λ (x y : String). x ≢ y) ys) (sym snoc) h)
          (subst (λ ys. IsOrdered (key_list direct_scores) children ys) (sym snoc) ordered)
          (λ y k. scored y (inr k))
          (λ d k. elim (In-append_cases d done (x ∷ []) k) [
            | inl old ↦
                let (low, found, worst) = known d old in
                (low, score_purl-other x d s (front_differs d x done xs h old) ∙ found, worst)
            | inr last ↦ elim last [
              | inl same ↦
                  subst (λ y. Known fl order direct_scores children alpha decay next y) (sym same)
                    now
              | inr none_left ↦ elim none_left [ ]
            ]
          ])
          p (subst (λ ys. In p ys) (sym snoc) m)

  -- Where scores are totally ordered and stored rounded, keys are distinct and the dependencies have
  -- no cycle, `_propagate` ends, and gives each package with a direct score the lowest direct score
  -- among the package itself and all that it depends on, directly or not, through packages with scores.
  pub propagate-IsWorst :
      Pairwise (λ (j k : String). j ≢ k) (key_list direct_scores)
      → Pairwise (λ (j k : String). j ≢ k) (key_list children)
      → ((q : String) (v : F) → lookup q direct_scores ≡ some v → fl.round_two v ≡ v)
      → (rank : String → ℕ)
      → ((p d : String)
          → In p (key_list direct_scores)
          → IsEdge (key_list direct_scores) children p d
          → rank d < rank p)
      → (s : Scores F) × (propagate fl direct_scores children alpha decay ≡ some s)
        × ((p : String) (v : F)
            → lookup p direct_scores ≡ some v
            → (low : F) × (lookup p s.min_path ≡ some low)
              × IsWorst fl order direct_scores children alpha decay p low)
  unfolding propagate Known
  propagate-IsWorst distinct keys rounded rank falls =
      let (xs, run, once, same) =
        reverse_topological_sort_total (key_list direct_scores) children keys distinct in
      let (ys, run_again, ordered) =
        reverse_topological_sort-IsOrdered (key_list direct_scores) children keys distinct rank
          falls in
      let agree : ys ≡ xs = cc in
      rw (propagate, run)
        (
          _,
          refl,
          λ p v e.
              score_all-Known rounded [] xs _ once
                (subst (λ zs. IsOrdered (key_list direct_scores) children zs) agree ordered)
                (λ x m. (same x).0 m) (λ d m. elim m [ ]) p
                ((same p).1 (lookup-key p v direct_scores e)),
        )
