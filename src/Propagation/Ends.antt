-- ===== src/Propagation/Ends.antt =====
-- The main loop ends: each round shortens the queue or visits a node, and the edges to the visited
-- nodes pay for what the round queues.
use sbom_graph.Prelude.{
  ℕ, zero, suc, ◌+◌, ◌<◌, ◌≤◌, ◌≡◌, ◌≢◌, ◌⊎◌, inl, inr, refl, sym, ap, subst, true, some, List, [],
  ◌∷◌, ◌++◌, String, arith, length, In, Pairwise, Bool-cases,
}
use sbom_graph.Members.{member, member_iff}
use sbom_graph.Dict.{Dict, key_list}
use sbom_graph.Propagation.{
  Kahn, parents, reverse_children, ready, visit, drain, start, edge_count, out_degree,
}
use sbom_graph.Propagation.Edges.{pending, pending-snoc, pending-le}
use sbom_graph.Propagation.Release.{release-fixed, length-release}
use sbom_graph.Propagation.Rounds.{IsKahn, visit-IsKahn, start-IsKahn}

module _ (nodes : List String) (children : Dict (List String)) where
  -- What the rounds use up.
  unfoldable measure : Kahn → ℕ
  measure s = length s.queue + pending nodes s.visited children

  visit-lt :
      (v : String) (rest : List String) (s : Kahn)
      → s.queue ≡ v ∷ rest
      → In v nodes
      → measure (visit nodes children v rest s) < measure s
  unfolding measure visit reverse_children
  visit-lt v rest s e k =
      let short = ap (λ xs. length xs) e in
      elim (Bool-cases (member v s.visited)) [
        | inl old ↦ rw (visit, old) (omega (arith, short))
        | inr new ↦
            let m : member v nodes ≡ true = (member_iff v nodes).1 k in
            let marked = record s {
              queue = rest;
              visited = s.visited ++ v ∷ [];
              result = s.result ++ v ∷ [];
            } in
            let fixed = release-fixed (parents nodes v children) marked in
            rw (visit, new, m)
              (omega (
                arith,
                short,
                length-release (parents nodes v children) marked,
                pending-snoc nodes s.visited v children m new,
                ap (λ xs. pending nodes xs children) fixed.0,
              ))
      ]

  length_zero : (xs : List String) → length xs ≡ 0 → xs ≡ []
  length_zero [] e = refl
  length_zero (x ∷ xs) e = absurd (omega (arith, e))

  List-cases :
      (xs : List String) → (xs ≡ []) ⊎ ((x : String) × (rest : List String) × (xs ≡ x ∷ rest))
  List-cases [] = inl refl
  List-cases (x ∷ xs) = inr (x, xs, refl)

  module _ (keys : Pairwise (λ (j k : String). j ≢ k) (key_list children)) where
    -- With enough fuel the loop empties the queue and keeps its invariant.
    drain-IsKahn :
        (fuel : ℕ) (s : Kahn)
        → measure s ≤ fuel
        → IsKahn nodes children s
        → (t : Kahn) × (drain nodes children fuel s ≡ some t)
          × IsKahn nodes children t
          × (t.queue ≡ [])
    unfolding drain measure
    drain-IsKahn zero s le h =
        let e = length_zero s.queue (omega (arith, le)) in rw (drain, e) (s, refl, h, e)
    drain-IsKahn (suc fuel) s le h = elim (List-cases s.queue) [
      | inl e ↦ rw (drain, e) (s, refl, h, e)
      | inr (v, rest, e) ↦
          let less = visit-lt v rest s e (h.queued v (subst (λ xs. In v xs) (sym e) (inl refl))) in
          rw (drain, e)
            (drain-IsKahn fuel (visit nodes children v rest s) (omega (arith, le, less))
              (visit-IsKahn nodes children keys v rest s e h))
    ]

    length-ready : (degree : String → ℕ) (xs : List String) → length (ready degree xs) ≤ length xs
    unfolding ready
    length-ready degree [] = omega arith
    length-ready degree (x ∷ xs) = ground (arith, length-ready degree xs)

    pub drain-start :
        (t : Kahn) × (drain nodes children
            (length nodes + edge_count children)
            (start nodes children)
          ≡ some t)
        × IsKahn nodes children t
        × (t.queue ≡ [])
    unfolding measure start
    drain-start =
        drain-IsKahn (length nodes + edge_count children) (start nodes children)
          (omega
            (arith, length-ready (out_degree nodes children) nodes, pending-le nodes [] children))
          (start-IsKahn nodes children)
