-- ===== src/BlastRadius/Rows.antt =====
-- The loop over the rows of a level.
use sbom_graph.Prelude.{
  ◌≡◌, ◌≢◌, ◌↔◌, ◌⊎◌, inl, inr, refl, sym, ap, ◌∙◌, List, [], ◌∷◌, ◌++◌, map, String, ◌==◌, eq_iff,
  arith, In, In-append_left, In-append_right, In-append_cases, Pairwise, Pairwise-snoc, All_of_In,
  length, length-append, ◌+◌, Bool-cases,
}
use mathlib.Core.List.{map-append}
use sbom_graph.Members.{member, member_iff}
use sbom_graph.BlastRadius.{Row, Package, Scan, package_of, visit_row, visit_rows}

-- What the loop may rely on: the packages are those of the next frontier, each once, none of them
-- visited before, and `visited` counts them.
pub record IsScan (before : List String) (s : Scan) : Type 0 where
  pub purls : map (λ (p : Package). p.purl) s.level_packages ≡ s.next_frontier
  pub distinct : Pairwise (λ (x y : String). x ≢ y) s.next_frontier
  pub old_or_new : (q : String) → In q s.visited ↔ (In q before ⊎ In q s.next_frontier)
  pub new : (q : String) → In q s.next_frontier → ¬ In q before
  pub count : length s.visited ≡ length before + length s.level_packages

-- A row is skipped, or its URL is new.
visit_row_cases :
    (row : Row) (s : Scan)
    → ((visit_row row s ≡ s) × ((row.purl ≡ "") ⊎ In row.purl s.visited))
      ⊎ ((visit_row row s ≡ record {
        visited = row.purl ∷ s.visited;
        next_frontier = s.next_frontier ++ row.purl ∷ [];
        level_packages = s.level_packages ++ package_of row ∷ [];
      })
          × (row.purl ≢ "")
          × (¬ In row.purl s.visited))
unfolding visit_row
visit_row_cases row s = elim (Bool-cases (row.purl == "")) [
  | inl e ↦ inl (ground arith, inl ((eq_iff row.purl "").0 e))
  | inr e ↦ elim (Bool-cases (member row.purl s.visited)) [
    | inl m ↦ inl (ground arith, inr ((member_iff row.purl s.visited).0 m))
    | inr m ↦ inr (
      ground arith,
      λ h. let k = (eq_iff row.purl "").1 h in cc,
      λ h. let k = (member_iff row.purl s.visited).1 h in cc,
    )
  ]
]

visit_row-IsScan :
    (before : List String) (row : Row) (s : Scan)
    → IsScan before s
    → IsScan before (visit_row row s)
visit_row-IsScan before row s h = elim (visit_row_cases row s) [
  | inl (same, _) ↦ rw same h
  | inr (next, _, unseen) ↦ rw next (record {
    purls = rw map-append (rw h.purls (unfold package_of in refl));
    distinct =
        Pairwise-snoc (λ (x y : String). x ≢ y) s.next_frontier row.purl h.distinct
          (All_of_In (λ x. x ≢ row.purl) s.next_frontier
            (λ x m e. unseen ((h.old_or_new row.purl).1 (inr (rw (sym e) m)))));
    old_or_new = λ q. (
      λ m. elim m [
        | inl e ↦ inr (In-append_right q s.next_frontier (row.purl ∷ []) (inl e))
        | inr n ↦ elim ((h.old_or_new q).0 n) [
          | inl b ↦ inl b
          | inr k ↦ inr (In-append_left q s.next_frontier (row.purl ∷ []) k)
        ]
      ],
      λ m. elim m [
        | inl b ↦ inr ((h.old_or_new q).1 (inl b))
        | inr k ↦ elim (In-append_cases q s.next_frontier (row.purl ∷ []) k) [
          | inl l ↦ inr ((h.old_or_new q).1 (inr l))
          | inr r ↦ elim r [ inl e ↦ inl e | inr z ↦ elim z [ ] ]
        ]
      ],
    );
    new = λ q m b. elim (In-append_cases q s.next_frontier (row.purl ∷ []) m) [
      | inl l ↦ h.new q l b
      | inr r ↦ elim r [
        | inl e ↦ unseen ((h.old_or_new row.purl).1 (inl (rw (← e) b)))
        | inr z ↦ elim z [ ]
      ]
    ];
    count = omega (arith, h.count, length-append s.level_packages (package_of row ∷ []));
  })
]

pub visit_rows-IsScan :
    (before : List String) (rows : List Row) (s : Scan)
    → IsScan before s
    → IsScan before (visit_rows rows s)
unfolding visit_rows
visit_rows-IsScan before [] s h = h
visit_rows-IsScan before (row ∷ rows) s h =
    visit_rows-IsScan before rows (visit_row row s) (visit_row-IsScan before row s h)

-- A row with a URL, by that URL.
abbrev pub HasRow : List Row → String → Type 0
HasRow rows q = (q ≢ "") × (r : Row) × In r rows × (r.purl ≡ q)

-- Only rows add to the sets, and what is visited stays visited.
pub visit_rows_sound :
    (rows : List Row) (s : Scan) (q : String)
    → In q (visit_rows rows s).next_frontier
    → In q s.next_frontier ⊎ HasRow rows q
unfolding visit_rows
visit_rows_sound [] s q m = inl m
visit_rows_sound (row ∷ rows) s q m = elim (visit_rows_sound rows (visit_row row s) q m) [
  | inr (ne, r, k, e) ↦ inr (ne, r, inr k, e)
  | inl k ↦ elim (visit_row_cases row s) [
    | inl (same, _) ↦ inl (rw same at k)
    | inr (next, ne, _) ↦ elim (In-append_cases q s.next_frontier (row.purl ∷ []) (rw next at k)) [
      | inl l ↦ inl l
      | inr r ↦ elim r [
        | inl e ↦ inr ((λ z. ne (sym e ∙ z)), row, inl refl, sym e)
        | inr z ↦ elim z [ ]
      ]
    ]
  ]
]

visit_row-keeps :
    (row : Row) (s : Scan) (q : String) → In q s.visited → In q (visit_row row s).visited
visit_row-keeps row s q m = elim (visit_row_cases row s) [
  | inl (same, _) ↦ rw same m
  | inr (next, _, _) ↦ rw next (inr m)
]

visit_rows-keeps :
    (rows : List Row) (s : Scan) (q : String) → In q s.visited → In q (visit_rows rows s).visited
unfolding visit_rows
visit_rows-keeps [] s q m = m
visit_rows-keeps (row ∷ rows) s q m =
    visit_rows-keeps rows (visit_row row s) q (visit_row-keeps row s q m)

-- Every row with a URL is visited in the end.
pub visit_rows_complete :
    (rows : List Row) (s : Scan) (q : String) → HasRow rows q → In q (visit_rows rows s).visited
unfolding visit_rows
visit_rows_complete [] s q (ne, r, m, e) = elim m [ ]
visit_rows_complete (row ∷ rows) s q (ne, r, inr m, e) =
    visit_rows_complete rows (visit_row row s) q (ne, r, m, e)
visit_rows_complete (row ∷ rows) s q (ne, r, inl same, e) =
    visit_rows-keeps rows (visit_row row s) q (elim (visit_row_cases row s) [
      | inl (next, inl empty) ↦ absurd (ne (sym e ∙ ap (λ (x : Row). x.purl) same ∙ empty))
      | inl (next, inr seen) ↦ rw next (rw (← named) seen)
      | inr (next, _, _) ↦ rw next (inl (sym named))
    ])
  where
    named : row.purl ≡ q
    named = sym (ap (λ (x : Row). x.purl) same) ∙ e
