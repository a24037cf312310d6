-- ===== src/Bounded/Edges.antt =====
-- The loop over the edges.
use sbom_graph.Prelude.{
  ℕ, ◌+◌, ◌<◌, ◌≤◌, ◌≡◌, ◌⊎◌, inl, inr, refl, sym, ap, subst, ◌∙◌, Bool, true, ◌&&◌, List, [], ◌∷◌,
  ◌++◌, String, arith, ltb, leb, lt→ltb, length, length-append, In, All, All-append, Bool-cases,
}
use mathlib.Core.List.{append-nil, append_assoc}
use sbom_graph.Members.{member, member_iff}
use sbom_graph.Bounded.{Keys, KeptEdges, or_blank, keep_edge, keep_edges}

module _ {N E : Type 0} (keys : Keys N E) (ids : List String) where
  -- Both ends of the edge are among `ids`.
  unfoldable pub Joins : E → Type 0
  Joins e = In (or_blank (keys.source e)) ids × In (or_blank (keys.target e)) ids

  -- What holds of the kept edges all along.
  pub record EdgesKept (edges : List E) (cap : ℕ) (s : KeptEdges E) : Type 0 where
    pub joined : All Joins s.kept_edges
    pub given : All (λ e. In e edges) s.kept_edges
    pub within : length s.kept_edges ≤ cap
    pub flag : s.truncated ≡ ltb 0 s.dropped

  unfoldable both : E → Bool
  both e = member (or_blank (keys.source e)) ids && member (or_blank (keys.target e)) ids

  both-Joins : (e : E) → both e ≡ true → Joins e
  unfolding both Joins
  both-Joins e h = (
    (member_iff (or_blank (keys.source e)) ids).0 (ground arith),
    (member_iff (or_blank (keys.target e)) ids).0 (ground arith),
  )

  dropped-EdgesKept :
      (edges : List E) (cap : ℕ) (s : KeptEdges E)
      → EdgesKept edges cap s
      → EdgesKept edges cap (record s { truncated = true; dropped = s.dropped + 1 })
  dropped-EdgesKept edges cap s h = record {
    joined = h.joined;
    given = h.given;
    within = h.within;
    flag = sym (lt→ltb 0 (s.dropped + 1) (omega arith));
  }

  keep_edge-EdgesKept :
      (edges : List E) (cap : ℕ) (e : E) (s : KeptEdges E)
      → In e edges
      → EdgesKept edges cap s
      → EdgesKept edges cap (keep_edge keys cap ids e s)
  unfolding keep_edge both
  keep_edge-EdgesKept edges cap e s m h = elim (Bool-cases (both e)) [
    | inr out ↦ rw out (dropped-EdgesKept edges cap s h)
    | inl inside ↦ rw inside (elim (Bool-cases (leb cap (length s.kept_edges))) [
      | inl full ↦ rw full (dropped-EdgesKept edges cap s h)
      | inr room ↦ rw room (record {
        joined = All-append Joins s.kept_edges (e ∷ []) h.joined (both-Joins e inside, tt);
        given = All-append (λ x. In x edges) s.kept_edges (e ∷ []) h.given (m, tt);
        within = rw (length-append s.kept_edges (e ∷ [])) (ground arith);
        flag = h.flag;
      })
    ])
  ]

  pub keep_edges-EdgesKept :
      (edges : List E) (cap : ℕ) (rest : List E) (s : KeptEdges E)
      → All (λ e. In e edges) rest
      → EdgesKept edges cap s
      → EdgesKept edges cap (keep_edges keys cap ids rest s)
  unfolding keep_edges
  keep_edges-EdgesKept edges cap [] s given h = h
  keep_edges-EdgesKept edges cap (e ∷ rest) s given h =
      keep_edges-EdgesKept edges cap rest (keep_edge keys cap ids e s) given.1
        (keep_edge-EdgesKept edges cap e s given.0 h)

  keep_edge-counts :
      (cap : ℕ) (e : E) (s : KeptEdges E)
      → (s.dropped < (keep_edge keys cap ids e s).dropped)
        ⊎ (keep_edge keys cap ids e s ≡ record s { kept_edges = s.kept_edges ++ e ∷ [] })
  unfolding keep_edge both
  keep_edge-counts cap e s = elim (Bool-cases (both e)) [
    | inr out ↦ rw out (inl (omega arith))
    | inl inside ↦ rw inside (elim (Bool-cases (leb cap (length s.kept_edges))) [
      | inl full ↦ rw full (inl (omega arith))
      | inr room ↦ rw room (inr refl)
    ])
  ]

  -- Either some edge is dropped, or every edge is appended.
  pub keep_edges-counts :
      (cap : ℕ) (rest : List E) (s : KeptEdges E)
      → (s.dropped < (keep_edges keys cap ids rest s).dropped)
        ⊎ (keep_edges keys cap ids rest s ≡ record s { kept_edges = s.kept_edges ++ rest })
  unfolding keep_edges
  keep_edges-counts cap [] s =
      inr (ap (λ es. record s { kept_edges = es }) (sym (append-nil s.kept_edges)))
  keep_edges-counts cap (e ∷ rest) s =
      let s' = keep_edge keys cap ids e s in
      elim (keep_edge-counts cap e s) [
        | inl more ↦ elim (keep_edges-counts cap rest s') [
          | inl more' ↦ inl (omega (arith, more, more'))
          | inr same ↦ inl (rw same more)
        ]
        | inr same ↦
            subst
              (λ t.
                (s.dropped < (keep_edges keys cap ids rest t).dropped)
                ⊎ (keep_edges keys cap ids rest t
                    ≡ record s { kept_edges = s.kept_edges ++ e ∷ rest }))
              (sym same)
              (elim (keep_edges-counts cap rest
                (record s { kept_edges = s.kept_edges ++ e ∷ [] })) [
                  | inl more ↦ inl more
                  | inr appended ↦ inr (
                      appended
                      ∙ ap (λ es. record s { kept_edges = es })
                          (append_assoc s.kept_edges (e ∷ []) rest))
                ])
      ]
