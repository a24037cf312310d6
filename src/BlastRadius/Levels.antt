-- ===== src/BlastRadius/Levels.antt =====
-- The search finds every dependant at its distance from the package.
use sbom_graph.Prelude.{ℕ, zero, suc, ◌≡◌, ◌↔◌, inl, inr, refl, List, [], ◌∷◌, String, arith, In}
use sbom_graph.Members.{In-cases}
use sbom_graph.BlastRadius.{Row, Scan, visit_rows}
use sbom_graph.BlastRadius.Rows.{
  IsScan, HasRow, visit_rows-IsScan, visit_rows_sound, visit_rows_complete,
}
use sbom_graph.BlastRadius.Distance.{
  Edge, Step, Within, AtDistance, AtDistance-pred, AtDistance-of_Within, Within-zero, Within-one,
  Within-suc,
}

-- What the query is relied on for: its rows are those of the edges into the given URLs.
abbrev pub Answers : List Edge → (List String → List Row) → Type 0
Answers edges query =
    (purls : List String) (r : Row)
    → In r (query purls) ↔ ((e : Edge) × In e edges × In e.child purls × (e.parent ≡ r))

module _ (edges : List Edge) (root : String) where
  -- The sets at the start of the round after distance `n`.
  pub record IsLevel (n : ℕ) (visited current : List String) : Type 0 where
    pub reached : (q : String) → In q visited → Within edges root (suc n) q
    pub covered : (q : String) → Within edges root (suc n) q → In q visited
    pub near : (q : String) → In q current → AtDistance edges root n q
    pub all : (q : String) → AtDistance edges root n q → In q current

  pub IsLevel-start : IsLevel zero (root ∷ []) (root ∷ [])
  IsLevel-start = record {
    reached = λ q m. elim m [ inl e ↦ (0, omega arith, e) | inr z ↦ elim z [ ] ];
    covered = λ q w. inl (Within-one edges root q w);
    near = λ q m. elim m [ inl e ↦ (e, Within-zero edges root q) | inr z ↦ elim z [ ] ];
    all = λ q (w, _). inl w;
  }

  module _ (query : List String → List Row) (answers : Answers edges query) where
    -- One round: the scan of the query's rows.
    abbrev pub round : List String → List String → Scan
    round visited current =
        visit_rows (query current)
          (record { visited = visited; next_frontier = []; level_packages = [] })

    pub round-IsScan : (visited current : List String) → IsScan visited (round visited current)
    round-IsScan visited current = visit_rows-IsScan visited (query current) _ (record {
      purls = refl;
      distinct = tt;
      old_or_new = λ q. (λ m. inl m, λ m. elim m [ inl b ↦ b | inr z ↦ elim z [ ] ]);
      new = λ q m. elim m [ ];
      count = omega arith;
    })

    row_of_Step :
        (current : List String) (p q : String)
        → In p current
        → Step edges root p q
        → HasRow (query current) q
    row_of_Step current p q m (ne, e, k, from, to) =
        (ne, e.parent, (answers current e.parent).1 (e, k, rw from m, refl), to)

    Step-of_row :
        (current : List String) (q : String)
        → HasRow (query current) q
        → (p : String) × In p current × Step edges root p q
    Step-of_row current q (ne, r, m, to) =
        let (e, k, inside, same) = (answers current r).0 m in
        (e.child, inside, (ne, e, k, refl, rw same to))

    module _ (n : ℕ) (visited current : List String) (h : IsLevel n visited current) where
      new_near :
          (q : String)
          → In q (round visited current).next_frontier
          → AtDistance edges root (suc n) q
      new_near q m = elim (visit_rows_sound (query current) _ q m) [
        | inl z ↦ elim z [ ]
        | inr row ↦
            let (p, k, s) = Step-of_row current q row in
            ((p, (h.near p k).0, s), λ w. (round-IsScan visited current).new q m (h.covered q w))
      ]

      near_new :
          (q : String)
          → AtDistance edges root (suc n) q
          → In q (round visited current).next_frontier
      near_new q at =
          let (p, near, s) = AtDistance-pred edges root n q at in
          let m =
            visit_rows_complete (query current) _ q (row_of_Step current p q (h.all p near) s) in
          elim (((round-IsScan visited current).old_or_new q).0 m) [
            | inl b ↦ absurd (at.1 (h.reached q b))
            | inr k ↦ k
          ]

      pub IsLevel-round :
          IsLevel (suc n) (round visited current).visited (round visited current).next_frontier
      IsLevel-round = record {
        reached = λ q m. elim (((round-IsScan visited current).old_or_new q).0 m) [
          | inl b ↦ Within-suc edges root (suc n) q (h.reached q b)
          | inr k ↦ (suc n, omega arith, (new_near q k).0)
        ];
        covered = λ q w.
            ((round-IsScan visited current).old_or_new q).1 (elim (In-cases q visited) [
              | inl b ↦ inl b
              | inr absent ↦ inr (
                  near_new q
                    (AtDistance-of_Within edges root (suc n) q w (λ v. absent (h.covered q v))))
            ]);
        near = new_near;
        all = near_new;
      }
