-- ===== src/Paging/Walk.antt =====
-- What a reader sees who follows the links to the next page.
use sbom_graph.Prelude.{
  ℕ, zero, suc, ◌+◌, ◌-◌, ◌*◌, ◌/◌, ◌<◌, ◌≤◌, ◌≡◌, ◌↔◌, inl, inr, refl, sym, ap, ◌∙◌, true, false,
  Option, none, some, List, [], ◌∷◌, ◌++◌, arith, ltb, eqb, ltb→lt, lt→ltb, length, min, Bool-cases,
}
use mathlib.Core.List.{append-nil}
use native.Mathlib.Nat.{suc-mul, le-div_iff_mul-le}
use sbom_graph.Paging.{PageRequest, offset, shown_page, build_page_view, page_count}
use sbom_graph.Paging.Stream.{drop, take, concat, slice, take-drop, drop-add, length-drop, take_all}

module _ {A : Type 0} (rows : List A) (size : ℕ) where
  -- The pages that are shown from `page` on, while there is a next one.
  unfoldable pub follow : ℕ → ℕ → Option (List (List A))
  unfolding shown_page build_page_view
  follow zero page = none
  follow (suc fuel) page =
      let shown =
        shown_page (slice rows) (record { page = page; page_size = size; unlimited = false }) in
      elim (build_page_view (record { page = page; page_size = size; unlimited = false })
        (length rows)).next [
          | none ↦ some (shown ∷ [])
          | some next ↦ elim (follow fuel next) [ none ↦ none | some pages ↦ some (shown ∷ pages) ]
        ]

  module _ (positive : 0 < size) where
    -- There is a next page exactly when some row follows.
    page_count_iff :
        (k : ℕ) → (suc k < page_count (length rows) size) ↔ (suc k * size < length rows)
    unfolding page_count
    page_count_iff k =
        let (to, from) =
          le-div_iff_mul-le {k = size} {x = suc (suc k)} {y = length rows + (size - 1)} positive in
        let product = suc-mul (suc k) size in
        let nonzero : eqb size 0 ≡ false = ground arith in
        rw (page_count, nonzero)
          (
            λ h.
                let below : suc (suc k) ≤ (length rows + (size - 1)) / size = ground (arith, h) in
                omega (arith, to below, product, positive),
            λ h.
                let above : suc (suc k) * size ≤ length rows + (size - 1) =
                  omega (arith, h, product, positive) in
                ground (arith, from above),
          )

    page_count_pos : 0 < page_count (length rows) size
    unfolding page_count
    page_count_pos = elim (Bool-cases (eqb size 0)) [
      | inl e ↦ rw (page_count, e) (omega arith)
      | inr e ↦ rw (page_count, e) (ground arith)
    ]

    -- The page after `k` others.
    shown_page_lem :
        (k : ℕ)
        → k * size ≤ 1000000
        → shown_page (slice rows) (record { page = suc k; page_size = size; unlimited = false })
          ≡ take size (drop (k * size) rows)
    unfolding shown_page offset
    shown_page_lem k h =
        let e : suc k - 1 ≡ k = omega arith in
        let f : min (k * size) 1000000 ≡ k * size = ground (arith, h) in
        ap (λ n. take size (drop n rows)) (ap (λ m. min (m * size) 1000000) e ∙ f)

    module _ (fits : length rows ≤ 1000000) where
      -- `page` is `k + 1`.
      unfoldable Follows : ℕ → ℕ → Type 0
      Follows fuel k =
          (pages : List (List A)) × (follow fuel (suc k) ≡ some pages)
          × (concat pages ≡ drop (k * size) rows)

      follow_last :
          (fuel k : ℕ)
          → k * size ≤ length rows
          → ltb (suc k) (page_count (length rows) size) ≡ false
          → Follows (suc fuel) k
      unfolding follow build_page_view Follows concat
      follow_last fuel k inside e =
          let small : length (drop (k * size) rows) ≤ size =
            elim (Bool-cases (ltb (suc k * size) (length rows))) [
              | inl more ↦ absurd (
                  let there =
                    lt→ltb (suc k) _ ((page_count_iff k).1 (ltb→lt (suc k * size) _ more)) in
                  cc)
              | inr over ↦
                  let enough : length rows ≤ suc k * size = ground arith in
                  omega (arith, enough, suc-mul k size, length-drop (k * size) rows)
            ] in
          rw (follow, build_page_view, e)
            (
              _ ∷ [],
              refl,
              append-nil _
                  ∙ shown_page_lem k (omega (arith, inside, fits))
                  ∙ take_all size (drop (k * size) rows) small,
            )

      follow_more :
          (fuel k : ℕ)
          → ltb (suc k) (page_count (length rows) size) ≡ true
          → k * size ≤ length rows
          → Follows fuel (suc k)
          → Follows (suc fuel) k
      unfolding follow build_page_view Follows concat
      follow_more fuel k e inside (pages, run, whole) =
          let next : suc k + 1 ≡ suc (suc k) = omega arith in
          rw (follow, build_page_view, e, next, run)
            (
              _ ∷ pages,
              refl,
              ap (λ xs. xs ++ concat pages) (shown_page_lem k (omega (arith, inside, fits)))
                  ∙ ap (λ xs. take size (drop (k * size) rows) ++ xs)
                      (whole
                        ∙ ap (λ n. drop n rows) (suc-mul k size)
                        ∙ drop-add (k * size) size rows)
                  ∙ take-drop size (drop (k * size) rows),
            )

      follow_lem :
          (fuel k : ℕ)
          → k < page_count (length rows) size
          → k * size ≤ length rows
          → page_count (length rows) size ≤ k + fuel
          → Follows fuel k
      follow_lem zero k there inside enough = absurd (omega (arith, there, enough))
      follow_lem (suc fuel) k there inside enough =
          elim (Bool-cases (ltb (suc k) (page_count (length rows) size))) [
            | inr e ↦ follow_last fuel k inside e
            | inl e ↦
                let more = ltb→lt (suc k) _ e in
                follow_more fuel k e inside (
                  follow_lem fuel (suc k) more (omega (arith, (page_count_iff k).0 more))
                    (omega (arith, enough)))
          ]

      -- Where there are no more than 1000000 rows, the size of pages is not 0 and `fetch_page` answers by
      -- slices of the rows, whoever starts at the first page and follows the links to the next page
      -- comes to an end, and has seen the rows, each once and in their order.
      pub follow-concat :
          (pages : List (List A)) × (follow (page_count (length rows) size) 1 ≡ some pages)
          × (concat pages ≡ rows)
      unfolding Follows drop
      follow-concat =
          let (pages, run, whole) =
            follow_lem (page_count (length rows) size) 0 page_count_pos (omega arith)
              (omega arith) in
          (
            pages,
            run,
            whole
                ∙ ap (λ n. drop n rows)
                    (let none_skipped : 0 * size ≡ 0 = omega arith in none_skipped),
          )

-- Two requests of one page size whose pages begin at row 1000000 or later are answered with the
-- same rows, those from row 1000000 on.
pub shown_page_window :
    {A : Type 0}
    → (fetch_page : ℕ → ℕ → List A) (r s : PageRequest) → r.page_size ≡ s.page_size
    → 1000000 ≤ (r.page - 1) * r.page_size
    → 1000000 ≤ (s.page - 1) * s.page_size
    → (shown_page fetch_page r ≡ fetch_page 1000000 r.page_size)
      × (shown_page fetch_page r ≡ shown_page fetch_page s)
unfolding shown_page offset
shown_page_window fetch_page r s same h k =
    let e : min ((r.page - 1) * r.page_size) 1000000 ≡ 1000000 = ground (arith, h) in
    let f : min ((s.page - 1) * s.page_size) 1000000 ≡ 1000000 = ground (arith, k) in
    let one = ap (λ n. fetch_page n r.page_size) e in
    (one, one ∙ ap (λ m. fetch_page 1000000 m) same ∙ sym (ap (λ n. fetch_page n s.page_size) f))
