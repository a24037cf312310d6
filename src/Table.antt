-- ===== src/Table.antt =====
-- A database table as the list of its rows in insertion order, with the queries that the stores
-- issue through SQLAlchemy: `.filter(...).first()`, `.filter(...).all()`, the update of the rows that
-- match and the deletion of the rows that do not stay.
pub mod Keys
use sbom_graph.Prelude.{
  subst, All-map, ◌≡◌, refl, Bool, true, false, Option, none, some, List, [], ◌∷◌, ◌++◌, arith,
  if◌then◌else◌, All, Pairwise, inl, inr, Bool-cases,
}

module _ {ℓ} {A : Type ℓ} where
  -- `.filter(test).first()`
  unfoldable pub first : (A → Bool) → List A → Option A
  first test [] = none
  first test (r ∷ rows) = if test r then some r else first test rows

  -- `.filter(test).all()`, and the table after the deletion of the rows that fail `test`.
  unfoldable pub select : (A → Bool) → List A → List A
  select test [] = []
  select test (r ∷ rows) = let rest = select test rows in if test r then r ∷ rest else rest

  -- The assignment of attributes to the rows that match.
  unfoldable pub update : (A → Bool) → (A → A) → List A → List A
  update test change [] = []
  update test change (r ∷ rows) = (if test r then change r else r) ∷ update test change rows

module _ {ℓ} {A : Type ℓ} (test : A → Bool) where
  pub first_holds : (rows : List A) (a : A) → first test rows ≡ some a → test a ≡ true
  unfolding first
  first_holds [] a h = cc
  first_holds (r ∷ rows) a h = ground (arith, first_holds rows a)

  pub first-none : (rows : List A) → first test rows ≡ none → All (λ a. test a ≡ false) rows
  unfolding first
  first-none [] h = tt
  first-none (r ∷ rows) h = elim (Bool-cases (test r)) [
    | inl e ↦ cc (rw e at h)
    | inr e ↦ (e, first-none rows (rw e at h))
  ]

  -- The query finds a new row that matches, if no other does.
  pub first-snoc :
      (rows : List A) (y : A)
      → All (λ a. test a ≡ false) rows
      → test y ≡ true
      → first test (rows ++ y ∷ []) ≡ some y
  unfolding first
  first-snoc [] y h t = ground arith
  first-snoc (r ∷ rows) y h t = ground (arith, first-snoc rows y h.1)

  pub first-All_false : (rows : List A) → All (λ a. test a ≡ false) rows → first test rows ≡ none
  unfolding first
  first-All_false [] h = refl
  first-All_false (r ∷ rows) h = ground (arith, first-All_false rows h.1)

  pub select-All_true : (rows : List A) → All (λ a. test a ≡ true) (select test rows)
  unfolding select
  select-All_true [] = tt
  select-All_true (r ∷ rows) = elim (Bool-cases (test r)) [
    | inl e ↦ rw e (e, select-All_true rows)
    | inr e ↦ rw e (select-All_true rows)
  ]

  pub select_of_All : (rows : List A) → All (λ a. test a ≡ true) rows → select test rows ≡ rows
  unfolding select
  select_of_All [] h = refl
  select_of_All (r ∷ rows) h = ground (arith, select_of_All rows h.1)

  pub select-All_false : (rows : List A) → All (λ a. test a ≡ false) rows → select test rows ≡ []
  unfolding select
  select-All_false [] h = refl
  select-All_false (r ∷ rows) h = ground (arith, select-All_false rows h.1)

module _ {ℓ κ} {A : Type ℓ} (P : A → Type κ) (test : A → Bool) where
  pub All-first : (rows : List A) (a : A) → All P rows → first test rows ≡ some a → P a
  unfolding first
  All-first [] a h e = cc
  All-first (r ∷ rows) a h e = elim (Bool-cases (test r)) [
    | inl t ↦ let same : r ≡ a = ground arith in subst P same h.0
    | inr f ↦ All-first rows a h.1 (rw f at e)
  ]

  pub All-select : (rows : List A) → All P rows → All P (select test rows)
  unfolding select
  All-select [] h = tt
  All-select (r ∷ rows) h = elim (Bool-cases (test r)) [
    | inl e ↦ rw e (h.0, All-select rows h.1)
    | inr e ↦ rw e (All-select rows h.1)
  ]

  pub All-update :
      (change : A → A) (rows : List A)
      → ((a : A) → P a → test a ≡ true → P (change a))
      → All P rows
      → All P (update test change rows)
  unfolding update
  All-update change [] keep h = tt
  All-update change (r ∷ rows) keep h = elim (Bool-cases (test r)) [
    | inl e ↦ rw e (keep r h.0 e, All-update change rows keep h.1)
    | inr e ↦ rw e (h.0, All-update change rows keep h.1)
  ]

  -- The rows that match are changed, the others stay.
  pub All-update_cases :
      (change : A → A) (rows : List A)
      → ((a : A) → test a ≡ true → P (change a))
      → ((a : A) → test a ≡ false → P a)
      → All P (update test change rows)
  unfolding update
  All-update_cases change [] hit miss = tt
  All-update_cases change (r ∷ rows) hit miss = elim (Bool-cases (test r)) [
    | inl e ↦ rw e (hit r e, All-update_cases change rows hit miss)
    | inr e ↦ rw e (miss r e, All-update_cases change rows hit miss)
  ]

module _ {ℓ κ} {A : Type ℓ} (R : A → A → Type κ) (test : A → Bool) where
  pub Pairwise-select : (rows : List A) → Pairwise R rows → Pairwise R (select test rows)
  unfolding select
  Pairwise-select [] h = tt
  Pairwise-select (r ∷ rows) h = elim (Bool-cases (test r)) [
    | inl e ↦ rw e (All-select (R r) test rows h.0, Pairwise-select rows h.1)
    | inr e ↦ rw e (Pairwise-select rows h.1)
  ]

  -- An update keeps a relation that it keeps on each side by itself.
  pub Pairwise-update :
      (change : A → A) (rows : List A)
      → ((a b : A) → R a b → R (change a) b)
      → ((a b : A) → R a b → R a (change b))
      → Pairwise R rows
      → Pairwise R (update test change rows)
  unfolding update
  Pairwise-update change [] left right h = tt
  Pairwise-update change (r ∷ rows) left right h = elim (Bool-cases (test r)) [
    | inl e ↦ rw e (
      All-update (R (change r)) test change rows (λ b k _. right (change r) b k)
          (All-map (R r) (R (change r)) rows (left r) h.0),
      Pairwise-update change rows left right h.1,
    )
    | inr e ↦ rw e (
      All-update (R r) test change rows (λ b k _. right r b k) h.0,
      Pairwise-update change rows left right h.1,
    )
  ]

-- Two queries that agree on every row.
pub first_congr {ℓ} :
    {A : Type ℓ} (s t : A → Bool) (rows : List A)
    → All (λ a. s a ≡ t a) rows
    → first s rows ≡ first t rows
unfolding first
first_congr s t [] h = refl
first_congr s t (r ∷ rows) h = rw h.0 (rw (first_congr s t rows h.1))
