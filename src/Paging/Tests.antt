-- ===== src/Paging/Tests.antt =====
-- Five rows in pages of two.
use sbom_graph.Prelude.{ℕ, ◌≡◌, refl, true, false, none, some, List, [], ◌∷◌, length, arith}
use sbom_graph.Text.{codes}
use sbom_graph.Validation.Tests.{ascii}
use sbom_graph.Paging.{iterate_pages, PageRequest, parse_pagination, shown_page, page_count}
use sbom_graph.Paging.Stream.{take, drop, concat, slice, IsPaged, iterate_pages-concat}
use sbom_graph.Paging.Walk.{follow, follow-concat}

abbrev rows : List ℕ
rows = 1 ∷ 2 ∷ 3 ∷ 4 ∷ 5 ∷ []

abbrev deep : ℕ → PageRequest
deep page = record { page = page; page_size = 1000; unlimited = false }

program : Unit {0}
unfolding iterate_pages take drop follow parse_pagination shown_page
program = tt

pages_run : iterate_pages (slice rows) 2 6 0 ≡ some ((1 ∷ 2 ∷ []) ∷ (3 ∷ 4 ∷ []) ∷ (5 ∷ []) ∷ [])
unfolding program
pages_run = refl

follow_run : follow rows 2 3 1 ≡ some ((1 ∷ 2 ∷ []) ∷ (3 ∷ 4 ∷ []) ∷ (5 ∷ []) ∷ [])
unfolding program
follow_run = refl

-- The old parameter `limit` gives the page size; a page that is no number is the first.
parse_run :
    parse_pagination ascii (record {
      page = some (codes "x");
      page_size = none;
      limit = some (codes "25");
      all = some (codes "True");
    })
    ≡ record { page = 1; page_size = 25; unlimited = true }
unfolding program
parse_run = refl

iterate_pages-concat_example :
    (pages : List (List ℕ)) × (iterate_pages (slice rows) 2 6 0 ≡ some pages)
    × (concat pages ≡ rows)
    × IsPaged 2 pages
iterate_pages-concat_example = iterate_pages-concat rows 2 (omega arith) 6 (omega arith)

follow-concat_example :
    (pages : List (List ℕ)) × (follow rows 2 (page_count (length rows) 2) 1 ≡ some pages)
    × (concat pages ≡ rows)
follow-concat_example = follow-concat rows 2 (omega arith) (omega arith)
