-- ===== src/Table/Keys.antt =====
-- Queries of a table whose rows have distinct keys, and membership in the results.
use sbom_graph.Prelude.{
  ◌+◌, ◌≡◌, ◌≢◌, inl, inr, refl, sym, ◌∙◌, ap, Bool, true, false, not, some, List, [], ◌∷◌, ◌++◌,
  arith, length, All, All-map, All-In, Pairwise, In, Bool-cases,
}
use sbom_graph.Table.{first, select, update}

module _ {A : Type 0} (test : A → Bool) where
  pub first-In : (rows : List A) (a : A) → first test rows ≡ some a → In a rows
  unfolding first
  first-In [] a h = cc
  first-In (r ∷ rows) a h = elim (Bool-cases (test r)) [
    | inl e ↦ inl (ground arith)
    | inr e ↦ inr (first-In rows a (rw e at h))
  ]

  pub In-select : (rows : List A) (a : A) → In a rows → test a ≡ true → In a (select test rows)
  unfolding select
  In-select [] a h t = elim h [ ]
  In-select (r ∷ rows) a (inl e) t = rw (← e, t) (inl refl)
  In-select (r ∷ rows) a (inr m) t = elim (Bool-cases (test r)) [
    | inl e ↦ rw e (inr (In-select rows a m t))
    | inr e ↦ rw e (In-select rows a m t)
  ]

  pub In-of_In-select :
      (rows : List A) (a : A) → In a (select test rows) → In a rows × (test a ≡ true)
  unfolding select
  In-of_In-select [] a h = elim h [ ]
  In-of_In-select (r ∷ rows) a h = elim (Bool-cases (test r)) [
    | inl e ↦
        let m : In a (r ∷ select test rows) = rw e at h in
        elim m [
          | inl p ↦ (inl p, rw p e)
          | inr n ↦ let (k, t) = In-of_In-select rows a n in (inr k, t)
        ]
    | inr e ↦ let (m, t) = In-of_In-select rows a (rw e at h) in (inr m, t)
  ]

module _ {A K : Type 0} (key : A → K) where
  -- With distinct keys, a row of the table is the only one under its key.
  pub All-key :
      (rows : List A) (a : A)
      → Pairwise (λ x y. key x ≢ key y) rows
      → In a rows
      → All (λ r. key r ≡ key a → r ≡ a) rows
  All-key [] a d m = tt
  All-key (r ∷ rows) a d (inl e) = (
    λ _. sym e,
    All-map (λ y. key r ≢ key y) (λ y. key y ≡ key a → y ≡ a) rows
        (λ y apart same. absurd (apart (ap key (sym e) ∙ sym same))) d.0,
  )
  All-key (r ∷ rows) a d (inr m) =
      (λ same. absurd (All-In (λ y. key r ≢ key y) a rows d.0 m same), All-key rows a d.1 m)

module _ {A : Type 0} (test : A → Bool) where
  -- The query that only the row `a` answers.
  pub first-only :
      (rows : List A) (a : A)
      → In a rows
      → test a ≡ true
      → All (λ r. test r ≡ true → r ≡ a) rows
      → first test rows ≡ some a
  unfolding first
  first-only [] a m t u = elim m [ ]
  first-only (r ∷ rows) a (inl e) t u = rw (← e, t)
  first-only (r ∷ rows) a (inr m) t u = elim (Bool-cases (test r)) [
    | inl e ↦ rw (e, u.0 e)
    | inr e ↦ rw e (first-only rows a m t u.1)
  ]

  pub In-update :
      (change : A → A) (rows : List A) (a : A)
      → In a rows
      → test a ≡ true
      → In (change a) (update test change rows)
  unfolding update
  In-update change [] a m t = elim m [ ]
  In-update change (r ∷ rows) a (inl e) t = rw (← e, t) (inl refl)
  In-update change (r ∷ rows) a (inr m) t = inr (In-update change rows a m t)

module _ {ℓ} {A : Type ℓ} (test : A → Bool) where
  pub first-update :
      (change : A → A) (rows : List A) (a : A)
      → first test rows ≡ some a
      → test (change a) ≡ true
      → first test (update test change rows) ≡ some (change a)
  unfolding first update
  first-update change [] a e t = cc
  first-update change (r ∷ rows) a e t = elim (Bool-cases (test r)) [
    | inl h ↦
        let same : r ≡ a = ground arith in
        let hit : test (change r) ≡ true = ground (arith, ap change same) in
        rw (h, hit) (ap (λ x. some (change x)) same)
    | inr h ↦ rw (h, h) (first-update change rows a (rw h at e) t)
  ]

  -- Every row is selected by a test or by its negation.
  pub length-select-not :
      (rows : List A)
      → length (select test rows) + length (select (λ r. not (test r)) rows) ≡ length rows
  unfolding select
  length-select-not [] = omega arith
  length-select-not (r ∷ rows) = ground (arith, length-select-not rows)

  -- An update that the selection does not see.
  pub select-update :
      (hit : A → Bool) (change : A → A) (rows : List A)
      → All (λ r. hit r ≡ true → test r ≡ false) rows
      → All (λ r. test (change r) ≡ test r) rows
      → select test (update hit change rows) ≡ select test rows
  unfolding select update
  select-update hit change [] h k = refl
  select-update hit change (r ∷ rows) h k =
      ground (arith, select-update hit change rows h.1 k.1, h.0, k.0)

  -- A selection after a selection that keeps all it wants.
  pub select-select :
      (keep : A → Bool) (rows : List A)
      → All (λ r. test r ≡ true → keep r ≡ true) rows
      → select test (select keep rows) ≡ select test rows
  unfolding select
  select-select keep [] h = refl
  select-select keep (r ∷ rows) h = ground (arith, select-select keep rows h.1, h.0)

  -- A new row that the selection does not see.
  pub select-snoc_false :
      (rows : List A) (y : A) → test y ≡ false → select test (rows ++ y ∷ []) ≡ select test rows
  unfolding select
  select-snoc_false [] y h = ground arith
  select-snoc_false (r ∷ rows) y h = ground (arith, select-snoc_false rows y h)

  -- A query reads only the rows that it selects.
  pub first-select :
      (wide : A → Bool) (rows : List A)
      → All (λ r. test r ≡ true → wide r ≡ true) rows
      → first test (select wide rows) ≡ first test rows
  unfolding select first
  first-select wide [] h = refl
  first-select wide (r ∷ rows) h = ground (arith, first-select wide rows h.1, h.0)

  pub first-update_miss :
      (hit : A → Bool) (change : A → A) (rows : List A)
      → All (λ r. hit r ≡ true → test r ≡ false) rows
      → All (λ r. test (change r) ≡ test r) rows
      → first test (update hit change rows) ≡ first test rows
  unfolding update first
  first-update_miss hit change [] h k = refl
  first-update_miss hit change (r ∷ rows) h k =
      ground (arith, first-update_miss hit change rows h.1 k.1, h.0, k.0)

  pub first-snoc_miss :
      (rows : List A) (y : A) → test y ≡ false → first test (rows ++ y ∷ []) ≡ first test rows
  unfolding first
  first-snoc_miss [] y h = ground arith
  first-snoc_miss (r ∷ rows) y h = ground (arith, first-snoc_miss rows y h)
