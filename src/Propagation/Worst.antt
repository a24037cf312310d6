-- ===== src/Propagation/Worst.antt =====
-- The lowest score among the packages that a package depends on, and one step of the scoring.
use sbom_graph.Prelude.{
  ◌≡◌, ◌↔◌, ◌⊎◌, inl, inr, refl, sym, ap, ◌∙◌, subst, true, false, some, List, [], ◌∷◌, ◌++◌,
  String, In, In-append_cases, Bool-cases,
}
use mathlib.Core.List.{append-nil, append_assoc}
use sbom_graph.Members.{member, member_iff}
use sbom_graph.Dict.{Dict, lookup, key_list, lookup_here}
use sbom_graph.Propagation.{children_of}
use sbom_graph.Propagation.Rounds.{IsEdge}
use sbom_graph.Propagation.Scores.{
  Floats, Scores, Sums, lookup_or, scored_deps, min_float, add_dep, add_deps, store, score_purl,
}

pub some_eq : {A : Type 0} {a b : A} → some a ≡ some b → a ≡ b
some_eq e = cc

-- Scores are compared by a total order: no score is NaN.
pub record IsOrder {F : Type 0} (fl : Floats F) : Type 0 where
  pub irrefl : (a : F) → fl.lt a a ≡ false
  pub asym : (a b : F) → fl.lt a b ≡ true → fl.lt b a ≡ false
  pub trans : (a b c : F) → fl.lt b a ≡ false → fl.lt c b ≡ false → fl.lt c a ≡ false

In-scored_deps :
    (scored deps : List String) (d : String)
    → In d (scored_deps scored deps) ↔ (In d deps × In d scored)
unfolding scored_deps
In-scored_deps scored [] d = (λ m. elim m [ ], λ h. elim h.0 [ ])
In-scored_deps scored (dep ∷ deps) d =
    let (to, from) = In-scored_deps scored deps d in
    elim (Bool-cases (member dep scored)) [
      | inr e ↦
          rw (scored_deps, e)
            (
              λ m. let h = to m in (inr h.0, h.1),
              λ h. elim h.0 [
                | inl same ↦ absurd (
                    let k = (member_iff d scored).1 h.1 in
                    let l : member d scored ≡ false = rw same e in cc)
                | inr later ↦ from (later, h.1)
              ],
            )
      | inl e ↦
          rw (scored_deps, e)
            (
              λ m. elim m [
                | inl same ↦ (inl same, (member_iff d scored).0 (rw same e))
                | inr later ↦ let h = to later in (inr h.0, h.1)
              ],
              λ h. elim h.0 [ inl same ↦ inl same | inr later ↦ inr (from (later, h.1)) ],
            )
    ]

module _ {F : Type 0} (fl : Floats F) (order : IsOrder fl) where
  -- `a ≤ b`
  unfoldable pub Le : F → F → Type 0
  Le a b = fl.lt b a ≡ false

  Le_refl : (a : F) → Le a a
  unfolding Le
  Le_refl a = order.irrefl a

  Le_trans : (a b c : F) → Le a b → Le b c → Le a c
  unfolding Le
  Le_trans a b c h k = order.trans a b c h k

  -- The minimum is one of the two, and below both.
  min_float_lem :
      (a b : F)
      → ((min_float fl a b ≡ a) ⊎ (min_float fl a b ≡ b))
        × Le (min_float fl a b) a
        × Le (min_float fl a b) b
  unfolding min_float Le
  min_float_lem a b = elim (Bool-cases (fl.lt b a)) [
    | inl e ↦ rw e (inr refl, order.asym b a e, order.irrefl b)
    | inr e ↦ rw e (inl refl, order.irrefl a, e)
  ]

  module _ (direct_scores : Dict F) (children : Dict (List String)) (alpha decay : F) where
    -- `p` depends on `q` through packages that have scores, or is `q`.
    pub data Reaches : String → String → Type 0 where
      here : (p : String) → Reaches p p
      through :
          {p q : String} (d : String)
          → IsEdge (key_list direct_scores) children p d
          → Reaches d q
          → Reaches p q

    -- `low` is the lowest score of all that `p` reaches.
    pub record IsWorst (p : String) (low : F) : Type 0 where
      pub attained : (q : String) × Reaches p q × (lookup q direct_scores ≡ some low)
      pub lowest : (q : String) (v : F) → Reaches p q → lookup q direct_scores ≡ some v → Le low v

    -- The minimal path score of `p` is known and right.
    unfoldable pub Known : Scores F → String → Type 0
    Known s p = (low : F) × (lookup p s.min_path ≡ some low) × IsWorst p low

    -- What the inner loop has made of the dependencies `done`.
    record IsLow (p : String) (ds : F) (done : List String) (s : Scores F) (low : F) : Type 0 where
      found : (q : String) × Reaches p q × (lookup q direct_scores ≡ some low)
      below_own : Le low ds
      below_deps : (d : String) (m : F) → In d done → lookup d s.min_path ≡ some m → Le low m

    add_dep-IsLow :
        (p dep : String) (ds : F) (done : List String) (s : Scores F) (sums : Sums F)
        → IsEdge (key_list direct_scores) children p dep
        → Known s dep
        → IsLow p ds done s sums.local_min
        → IsLow p ds
            (done ++ dep ∷ [])
            s
            (add_dep fl direct_scores children alpha decay dep s sums).local_min
    unfolding add_dep lookup_or Known
    add_dep-IsLow p dep ds done s sums edge (m, e, worst) h =
        let (which, below_old, below_new) = min_float_lem sums.local_min m in
        rw (add_dep, lookup_or, e)
          (record {
            found = elim which [
              | inl same ↦ (h.found.0, h.found.1, h.found.2 ∙ ap (λ x. some x) (sym same))
              | inr same ↦ (
                worst.attained.0,
                through dep edge worst.attained.1,
                worst.attained.2 ∙ ap (λ x. some x) (sym same),
              )
            ];
            below_own = Le_trans _ sums.local_min ds below_old h.below_own;
            below_deps = λ d v k f. elim (In-append_cases d done (dep ∷ []) k) [
              | inl old ↦ Le_trans _ sums.local_min v below_old (h.below_deps d v old f)
              | inr now ↦ elim now [
                | inl same ↦
                    let v_is_m = some_eq (sym f ∙ ap (λ x. lookup x s.min_path) same ∙ e) in
                    subst (λ x. Le (min_float fl sums.local_min m) x) (sym v_is_m) below_new
                | inr none_left ↦ elim none_left [ ]
              ]
            ];
          })

    add_deps-IsLow :
        (p : String) (ds : F) (done deps : List String) (s : Scores F) (sums : Sums F)
        → ((d : String) → In d deps → IsEdge (key_list direct_scores) children p d × Known s d)
        → IsLow p ds done s sums.local_min
        → IsLow p ds
            (done ++ deps)
            s
            (add_deps fl direct_scores children alpha decay deps s sums).local_min
    unfolding add_deps
    add_deps-IsLow p ds done [] s sums known h =
        subst (λ xs. IsLow p ds xs s sums.local_min) (sym (append-nil done)) h
    add_deps-IsLow p ds done (dep ∷ deps) s sums known h =
        let (edge, k) = known dep (inl refl) in
        let next = add_dep fl direct_scores children alpha decay dep s sums in
        subst
          (λ xs.
            IsLow p ds xs s (add_deps fl direct_scores children alpha decay deps s next).local_min)
          (append_assoc done (dep ∷ []) deps)
          (add_deps-IsLow p ds (done ++ dep ∷ []) deps s next (λ d m. known d (inr m))
            (add_dep-IsLow p dep ds done s sums edge k h))

    -- A score below that of `p` and below the worst of each dependency is below all that `p` reaches.
    below_reached :
        (low : F) (p q : String) (ds v : F)
        → lookup p direct_scores ≡ some ds
        → Le low ds
        → ((d : String)
            → IsEdge (key_list direct_scores) children p d
            → (m : F) × Le low m × IsWorst d m)
        → Reaches p q
        → lookup q direct_scores ≡ some v
        → Le low v
    below_reached low p q ds v own le deps (here _) e =
        subst (λ x. Le low x) (some_eq (sym own ∙ e)) le
    below_reached low p q ds v own le deps (through d edge r) e =
        let (m, below, worst) = deps d edge in Le_trans low m v below (worst.lowest q v r e)

    abbrev first_sums : F → Sums F
    first_sums ds = record {
      weighted_sum = fl.zero_float;
      weight_total = fl.zero_float;
      local_min = ds;
      total_dep_count = 0;
    }

    abbrev last_sums : List String → Scores F → F → Sums F
    last_sums deps s ds = add_deps fl direct_scores children alpha decay deps s (first_sums ds)

    own_IsLow :
        (p : String) (s : Scores F) (ds : F) → lookup p direct_scores ≡ some ds → IsLow p ds [] s ds
    own_IsLow p s ds own = record {
      found = (p, here p, own);
      below_own = Le_refl ds;
      below_deps = λ d m k f. elim k [ ];
    }

    module _ (p : String) (s : Scores F) (ds : F) (own : lookup p direct_scores ≡ some ds)
        (rounded : (q : String) (v : F) → lookup q direct_scores ≡ some v → fl.round_two v ≡ v)
        (known : (d : String) → IsEdge (key_list direct_scores) children p d → Known s d) where
      score_cases :
          (deps : List String)
          → scored_deps (key_list direct_scores) (children_of children p) ≡ deps
          → Known (score_purl fl direct_scores children alpha decay p s) p
      unfolding score_purl lookup_or store Known IsEdge
      score_cases [] e =
          rw (score_purl, e, lookup_or, own)
            (
              ds,
              lookup_here p ds s.min_path,
              record {
                attained = (p, here p, own);
                lowest = λ q v r f.
                    below_reached ds p q ds v own (Le_refl ds)
                      (λ d edge.
                        elim (subst (λ xs. In d xs) e
                          ((In-scored_deps (key_list direct_scores) (children_of children p) d).1
                            edge)) [ ])
                      r f;
              },
            )
      score_cases (dep ∷ deps) e =
          let all_known : (d : String)
              → In d (dep ∷ deps)
              → IsEdge (key_list direct_scores) children p d × Known s d =
            λ d m.
              let edge =
                (In-scored_deps (key_list direct_scores) (children_of children p) d).0
                  (subst (λ xs. In d xs) (sym e) m) in
              (edge, known d edge) in
          let low = (last_sums (dep ∷ deps) s ds).local_min in
          let is_low =
            add_deps-IsLow p ds [] (dep ∷ deps) s (first_sums ds) all_known
              (own_IsLow p s ds own) in
          let (q, r, f) = is_low.found in
          rw (score_purl, e, lookup_or, own, rounded q low f)
            (
              low,
              lookup_here p low s.min_path,
              record {
                attained = (q, r, f);
                lowest = λ q v r f.
                    below_reached low p q ds v own is_low.below_own
                      (λ d edge.
                        let m =
                          (In-scored_deps (key_list direct_scores) (children_of children p) d).1
                            edge in
                        let (v, k, worst) = known d edge in
                        (v, is_low.below_deps d v (subst (λ xs. In d xs) e m) k, worst))
                      r f;
              },
            )

    pub score_purl-Known :
        (p : String) (s : Scores F) (ds : F)
        → lookup p direct_scores ≡ some ds
        → ((q : String) (v : F) → lookup q direct_scores ≡ some v → fl.round_two v ≡ v)
        → ((d : String) → IsEdge (key_list direct_scores) children p d → Known s d)
        → Known (score_purl fl direct_scores children alpha decay p s) p
    score_purl-Known p s ds own rounded known = score_cases p s ds own rounded known _ refl
