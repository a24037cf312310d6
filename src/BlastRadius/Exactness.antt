-- ===== src/BlastRadius/Exactness.antt =====
-- The blast radius is exact: sound at each depth, and complete below the node limit.
use sbom_graph.Prelude.{
  ℕ, zero, suc, ◌+◌, ◌<◌, ◌≤◌, refl, sym, subst, List, [], ◌∷◌, String, arith, leb, leb→le,
  if◌then◌else◌, length, In, In-of_In-map, Bool-cases, inl, inr,
}
use native.Mathlib.Decide.{ℕ_discrete}
use sbom_graph.BlastRadius.{
  Row, Package, Frontier, Scan, max_transitive_nodes, add_level, total, levels,
  compute_blast_radius,
}
use sbom_graph.BlastRadius.Rows.{IsScan}
use sbom_graph.BlastRadius.Distance.{Edge, AtDistance, AtDistance-below}
use sbom_graph.BlastRadius.Levels.{
  Answers, IsLevel, IsLevel-start, IsLevel-round, round, round-IsScan,
}
use sbom_graph.BlastRadius.Frontiers.{
  IsFrontier, Listed, levels-IsFrontier, In-add_level, In-add_level_rest, total-add_level,
}

module _ (edges : List Edge) (root : String) (query : List String → List Row)
    (answers : Answers edges query) where
  abbrev scan : List String → List String → Scan
  scan = round edges root query answers

  Listed-add_level :
      (depth d : ℕ) (q : String) (packages : List Package) (rest : List Frontier)
      → Listed edges root d q rest
      → Listed edges root d q (add_level depth packages rest)
  Listed-add_level depth d q packages rest (f, m, at, p, k, e) =
      (f, In-add_level_rest depth packages rest f m, at, p, k, e)

  -- The vertices at the next distance are the packages of the level.
  Listed-level :
      (n : ℕ) (visited current : List String) (q : String) (rest : List Frontier)
      → IsLevel edges root n visited current
      → AtDistance edges root (suc n) q
      → Listed edges root (suc n) q (add_level (suc n) (scan visited current).level_packages rest)
  Listed-level n visited current q rest h at =
      let next = IsLevel-round edges root query answers n visited current h in
      let (p, m, named) =
        In-of_In-map (λ (x : Package). x.purl) q (scan visited current).level_packages
          (rw (round-IsScan edges root query answers visited current).purls (next.all q at)) in
      (
        record { depth = suc n; packages = (scan visited current).level_packages },
        In-add_level (suc n) (scan visited current).level_packages rest p m,
        refl,
        p,
        m,
        sym named,
      )

  levels-Listed :
      (left n d : ℕ) (visited current : List String) (q : String)
      → n < d
      → d ≤ n + left
      → length visited + total (levels query left (suc n) visited current) < max_transitive_nodes
      → IsLevel edges root n visited current
      → AtDistance edges root d q
      → Listed edges root d q (levels query left (suc n) visited current)
  unfolding levels
  levels-Listed zero n d visited current q low high room h at = absurd (omega arith)
  levels-Listed (suc left) n d visited [] q low high room h at =
      let (p, near) = AtDistance-below edges root n d q (omega arith) at in elim (h.all p near) [ ]
  levels-Listed (suc left) n d visited (c ∷ current) q low high room h at =
      elim (Bool-cases (leb max_transitive_nodes (length s.visited))) [
        | inl stop ↦ absurd (
            omega (
              arith,
              room,
              ok.count,
              total-add_level (suc n) s.level_packages
                  (if leb max_transitive_nodes (length s.visited) then [] else rest),
              leb→le _ _ stop,
            ))
        | inr go ↦ rw go (elim (ℕ_discrete d (suc n)) [
          | yes here ↦
              subst (λ k. Listed edges root k q (add_level (suc n) s.level_packages rest))
                (sym here)
                (Listed-level n visited (c ∷ current) q rest h
                  (subst (λ k. AtDistance edges root k q) here at))
          | no far ↦ Listed-add_level (suc n) d q s.level_packages rest (
              levels-Listed left (suc n) d s.visited s.next_frontier q (omega arith) (omega arith)
                (fits (rw go at room))
                (IsLevel-round edges root query answers n visited (c ∷ current) h) at)
        ])
      ]
    where
      s : Scan
      s = scan visited (c ∷ current)

      ok : IsScan visited s
      ok = round-IsScan edges root query answers visited (c ∷ current)

      rest : List Frontier
      rest = levels query left (suc (suc n)) s.visited s.next_frontier

      fits :
          length visited + total (add_level (suc n) s.level_packages rest) < max_transitive_nodes
          → length s.visited + total rest < max_transitive_nodes
      fits room = omega (arith, room, ok.count, total-add_level (suc n) s.level_packages rest)

-- Every frontier that `compute_blast_radius` returns has a depth from 1 to `max_depth`; each of its
-- packages is at exactly that distance from the root among the dependants, and no two of them have
-- the same URL.
pub compute_blast_radius-IsFrontier :
    (edges : List Edge) (query : List String → List Row) (root : String) (max_depth : ℕ)
    (f : Frontier)
    → Answers edges query
    → In f (compute_blast_radius query root max_depth).frontiers
    → IsFrontier edges root max_depth f
unfolding compute_blast_radius
compute_blast_radius-IsFrontier edges query root max_depth f answers m =
    levels-IsFrontier edges root query answers max_depth 0 max_depth (root ∷ []) (root ∷ [])
      (omega arith) (IsLevel-start edges root) f m

-- If fewer nodes than the limit were visited, the root and those counted in `total_affected`, then
-- every URL at a distance from 1 to `max_depth` is listed in the frontier of that depth.
pub compute_blast_radius-Listed :
    (edges : List Edge) (query : List String → List Row) (root : String) (max_depth d : ℕ)
    (q : String)
    → Answers edges query
    → 1 + (compute_blast_radius query root max_depth).total_affected < max_transitive_nodes
    → 0 < d
    → d ≤ max_depth
    → AtDistance edges root d q
    → Listed edges root d q (compute_blast_radius query root max_depth).frontiers
unfolding compute_blast_radius
compute_blast_radius-Listed edges query root max_depth d q answers room low high at =
    levels-Listed edges root query answers max_depth 0 d (root ∷ []) (root ∷ []) q low (omega arith)
      room (IsLevel-start edges root) at
