-- ===== src/Paging/Stream.antt =====
-- The pages of the generator, joined.
use sbom_graph.Prelude.{
  ℕ, zero, suc, ◌+◌, ◌-◌, ◌<◌, ◌≤◌, ◌≡◌, inl, inr, refl, sym, ap, ◌∙◌, some, List, [], ◌∷◌, ◌++◌,
  arith, ltb, ltb→lt, length, min, Bool-cases,
}
use mathlib.Core.List.{append-nil}
use sbom_graph.Paging.{iterate_pages}

-- `rows[n:]` and `rows[:n]`
unfoldable pub drop : {A : Type 0} → ℕ → List A → List A
drop zero xs = xs
drop (suc n) [] = []
drop (suc n) (x ∷ xs) = drop n xs

unfoldable pub take : {A : Type 0} → ℕ → List A → List A
take zero xs = []
take (suc n) [] = []
take (suc n) (x ∷ xs) = x ∷ take n xs

unfoldable pub concat : {A : Type 0} → List (List A) → List A
concat [] = []
concat (xs ∷ xss) = xs ++ concat xss

-- Pages that are full, but for the last, which has at least one row.
unfoldable pub IsPaged : {A : Type 0} → ℕ → List (List A) → Type 0
IsPaged chunk [] = Unit
IsPaged chunk (page ∷ []) = (0 < length page) × (length page ≤ chunk)
IsPaged chunk (page ∷ next ∷ pages) = (length page ≡ chunk) × IsPaged chunk (next ∷ pages)

module _ {A : Type 0} where
  IsPaged-cons :
      (chunk : ℕ) (page : List A) (pages : List (List A))
      → 0 < chunk
      → length page ≡ chunk
      → IsPaged chunk pages
      → IsPaged chunk (page ∷ pages)
  unfolding IsPaged
  IsPaged-cons chunk page [] positive full h = (omega arith, omega arith)
  IsPaged-cons chunk page (next ∷ pages) positive full h = (full, h)

  -- A query of the rows answers `SKIP offset LIMIT limit` by a slice of them.
  abbrev pub slice : List A → ℕ → ℕ → List A
  slice rows skip limit = take limit (drop skip rows)

  pub take-drop : (n : ℕ) (xs : List A) → take n xs ++ drop n xs ≡ xs
  unfolding take drop
  take-drop zero xs = refl
  take-drop (suc n) [] = refl
  take-drop (suc n) (x ∷ xs) = ap (λ ys. x ∷ ys) (take-drop n xs)

  pub length-drop : (n : ℕ) (xs : List A) → length (drop n xs) ≡ length xs - n
  unfolding drop
  length-drop zero xs = omega arith
  length-drop (suc n) [] = omega arith
  length-drop (suc n) (x ∷ xs) = omega (arith, length-drop n xs)

  length-take : (n : ℕ) (xs : List A) → length (take n xs) ≡ min n (length xs)
  unfolding take
  length-take zero xs = ground arith
  length-take (suc n) [] = ground arith
  length-take (suc n) (x ∷ xs) = ground (arith, length-take n xs)

  pub take_all : (n : ℕ) (xs : List A) → length xs ≤ n → take n xs ≡ xs
  unfolding take
  take_all zero [] h = refl
  take_all zero (x ∷ xs) h = absurd (omega arith)
  take_all (suc n) [] h = refl
  take_all (suc n) (x ∷ xs) h = ap (λ ys. x ∷ ys) (take_all n xs (omega (arith, h)))

  drop_all : (n : ℕ) (xs : List A) → length xs ≤ n → drop n xs ≡ []
  unfolding drop
  drop_all zero [] h = refl
  drop_all zero (x ∷ xs) h = absurd (omega arith)
  drop_all (suc n) [] h = refl
  drop_all (suc n) (x ∷ xs) h = drop_all n xs (omega (arith, h))

  pub drop-add : (n m : ℕ) (xs : List A) → drop (n + m) xs ≡ drop m (drop n xs)
  unfolding drop
  drop-add zero m xs = ap (λ k. drop k xs) (let e : zero + m ≡ m = omega arith in e)
  drop-add (suc n) m [] = drop_all (suc n + m) [] (omega arith) ∙ sym (drop_all m [] (omega arith))
  drop-add (suc n) m (x ∷ xs) =
      ap (λ k. drop k (x ∷ xs)) (let e : suc n + m ≡ suc (n + m) = omega arith in e)
      ∙ drop-add n m xs

  module _ (rows : List A) (chunk : ℕ) (positive : 0 < chunk) where
    -- The pages from `skip` on are the rows from there, in pages that are full or the last.
    unfoldable Streams : ℕ → ℕ → Type 0
    Streams fuel skip =
        (pages : List (List A)) × (iterate_pages (slice rows) chunk fuel skip ≡ some pages)
        × (concat pages ≡ drop skip rows)
        × IsPaged chunk pages

    page_cases :
        (fuel skip : ℕ) (page : List A)
        → slice rows skip chunk ≡ page
        → length (drop skip rows) < suc fuel
        → (length (drop (skip + chunk) rows) < fuel → Streams fuel (skip + chunk))
        → Streams (suc fuel) skip
    unfolding Streams IsPaged iterate_pages concat take
    page_cases fuel skip [] e h ih =
        let none_left : length (drop skip rows) ≤ 0 =
          omega (arith, positive, length-take chunk (drop skip rows), ap length e) in
        rw (iterate_pages, e) ([], refl, take_all 0 (drop skip rows) none_left, tt)
    page_cases fuel skip (r ∷ rs) e h ih =
        let size = length-take chunk (drop skip rows) in
        let same : length (take chunk (drop skip rows)) ≡ length (r ∷ rs) = ap length e in
        let bound : length (r ∷ rs) ≤ chunk = omega (arith, size, same) in
        elim (Bool-cases (ltb (length (r ∷ rs)) chunk)) [
          | inl short ↦
              let all : length (drop skip rows) ≤ chunk =
                omega (arith, size, same, ltb→lt (length (r ∷ rs)) chunk short) in
              rw (iterate_pages, e, short)
                (
                  (r ∷ rs) ∷ [],
                  refl,
                  append-nil (r ∷ rs) ∙ sym e ∙ take_all chunk (drop skip rows) all,
                  (omega arith, bound),
                )
          | inr full ↦
              let full_size : chunk ≤ length (r ∷ rs) = ground arith in
              let less : length (drop (skip + chunk) rows) < fuel = omega (
                arith,
                positive,
                h,
                length-drop (skip + chunk) rows,
                length-drop skip rows,
                size,
                same,
                full_size,
              ) in
              let (pages, run, whole, sizes) = ih less in
              rw (iterate_pages, e, full, run)
                (
                  (r ∷ rs) ∷ pages,
                  refl,
                  ap (λ xs. (r ∷ rs) ++ xs) (whole ∙ drop-add skip chunk rows)
                      ∙ ap (λ xs. xs ++ drop chunk (drop skip rows)) (sym e)
                      ∙ take-drop chunk (drop skip rows),
                  IsPaged-cons chunk (r ∷ rs) pages positive (omega (arith, bound, full_size))
                      sizes,
                )
        ]

    iterate_pages-from : (fuel skip : ℕ) → length (drop skip rows) < fuel → Streams fuel skip
    iterate_pages-from zero skip h = absurd (omega (arith, h))
    iterate_pages-from (suc fuel) skip h =
        page_cases fuel skip (slice rows skip chunk) refl h
          (λ less. iterate_pages-from fuel (skip + chunk) less)

    -- Where `fetch_page` answers by slices of the rows and pages are not of size 0, `iterate_pages`
    -- ends, and its pages, one after the other, are the rows, each once and in their order; every page
    -- but the last has as many rows as a chunk, and the last has at least one and no more than that.
    pub iterate_pages-concat :
        (fuel : ℕ)
        → length rows < fuel
        → (pages : List (List A)) × (iterate_pages (slice rows) chunk fuel 0 ≡ some pages)
          × (concat pages ≡ rows)
          × IsPaged chunk pages
    unfolding Streams drop
    iterate_pages-concat fuel h = iterate_pages-from fuel 0 h
