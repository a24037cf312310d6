-- ===== src/BlastRadius/Frontiers.antt =====
-- What `compute_blast_radius` returns, against the distances.
use sbom_graph.Prelude.{
  ℕ, zero, suc, ◌+◌, ◌<◌, ◌≤◌, ◌≡◌, ◌≢◌, ◌⊎◌, inl, inr, refl, List, [], ◌∷◌, String, arith, leb,
  length, In, In-map, Pairwise, Pairwise-of_map, Bool-cases,
}
use sbom_graph.BlastRadius.{
  Row, Package, Frontier, Scan, max_transitive_nodes, add_level, total, levels,
}
use sbom_graph.BlastRadius.Rows.{IsScan}
use sbom_graph.BlastRadius.Distance.{Edge, AtDistance}
use sbom_graph.BlastRadius.Levels.{Answers, IsLevel, IsLevel-round, round, round-IsScan}

add_level_cases :
    (depth : ℕ) (packages : List Package) (rest : List Frontier) (f : Frontier)
    → In f (add_level depth packages rest)
    → (f ≡ record { depth = depth; packages = packages }) ⊎ In f rest
unfolding add_level
add_level_cases depth [] rest f m = inr m
add_level_cases depth (p ∷ packages) rest f m = m

pub In-add_level :
    (depth : ℕ) (packages : List Package) (rest : List Frontier) (p : Package)
    → In p packages
    → In (record { depth = depth; packages = packages }) (add_level depth packages rest)
unfolding add_level
In-add_level depth [] rest p m = elim m [ ]
In-add_level depth (x ∷ packages) rest p m = inl refl

pub In-add_level_rest :
    (depth : ℕ) (packages : List Package) (rest : List Frontier) (f : Frontier)
    → In f rest
    → In f (add_level depth packages rest)
unfolding add_level
In-add_level_rest depth [] rest f m = m
In-add_level_rest depth (x ∷ packages) rest f m = inr m

pub total-add_level :
    (depth : ℕ) (packages : List Package) (rest : List Frontier)
    → total (add_level depth packages rest) ≡ length packages + total rest
unfolding add_level total
total-add_level depth [] rest = omega arith
total-add_level depth (x ∷ packages) rest = refl

module _ (edges : List Edge) (root : String) where
  -- The packages of a frontier are at its depth, and no two have one URL.
  pub record IsFrontier (max_depth : ℕ) (f : Frontier) : Type 0 where
    pub positive : 0 < f.depth
    pub bounded : f.depth ≤ max_depth
    pub exact : (p : Package) → In p f.packages → AtDistance edges root f.depth p.purl
    pub distinct : Pairwise (λ (a b : Package). a.purl ≢ b.purl) f.packages

  -- Some frontier of depth `d` has a package with the URL `q`.
  abbrev pub Listed : ℕ → String → List Frontier → Type 0
  Listed d q frontiers =
      (f : Frontier) × In f frontiers
      × (f.depth ≡ d)
      × (p : Package) × In p f.packages
      × (p.purl ≡ q)

  module _ (query : List String → List Row) (answers : Answers edges query) where
    abbrev scan : List String → List String → Scan
    scan = round edges root query answers

    package_near :
        (n : ℕ) (visited current : List String)
        → IsLevel edges root n visited current
        → (p : Package) → In p (scan visited current).level_packages
        → AtDistance edges root (suc n) p.purl
    package_near n visited current h p m =
        (IsLevel-round edges root query answers n visited current h).near p.purl (
          rw (← (round-IsScan edges root query answers visited current).purls)
            (In-map (λ (x : Package). x.purl) p (scan visited current).level_packages m))

    pub levels-IsFrontier :
        (left n max_depth : ℕ) (visited current : List String)
        → n + left ≤ max_depth
        → IsLevel edges root n visited current
        → (f : Frontier) → In f (levels query left (suc n) visited current)
        → IsFrontier max_depth f
    unfolding levels
    levels-IsFrontier zero n max_depth visited current le h f m = elim m [ ]
    levels-IsFrontier (suc left) n max_depth visited [] le h f m = elim m [ ]
    levels-IsFrontier (suc left) n max_depth visited (c ∷ current) le h f m =
        elim (add_level_cases (suc n) s.level_packages _ f m) [
          | inl e ↦ rw e (record {
            positive = omega arith;
            bounded = omega arith;
            exact = package_near n visited (c ∷ current) h;
            distinct =
                Pairwise-of_map (λ (x : Package). x.purl) (λ x y. x ≢ y) s.level_packages
                  (rw ok.purls ok.distinct);
          })
          | inr k ↦ elim (Bool-cases (leb max_transitive_nodes (length s.visited))) [
            | inl stop ↦ elim (rw stop at k) [ ]
            | inr go ↦
                levels-IsFrontier left (suc n) max_depth s.visited s.next_frontier (omega arith)
                  (IsLevel-round edges root query answers n visited (c ∷ current) h) f (rw go at k)
          ]
        ]
      where
        s : Scan
        s = scan visited (c ∷ current)

        ok : IsScan visited s
        ok = round-IsScan edges root query answers visited (c ∷ current)
