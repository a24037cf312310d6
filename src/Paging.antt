-- ===== src/Paging.antt =====
-- Pages of results: `iterate_pages` and `_page_clause` of
-- sbom-graph-api/src/sbom_graph_api/services/falkordb_service.py, and the pagination of
-- .../routes/reports/_common.py. Page numbers and sizes are positive, as the validation leaves them.
pub mod Stream
pub mod Walk
pub mod Tests
use sbom_graph.Prelude.{
  ℕ, zero, suc, ◌+◌, ◌-◌, ◌*◌, ◌/◌, Bool, true, false, Option, none, some, List, [], ◌∷◌, ◌++◌,
  if◌then◌else◌, ltb, eqb, leb, length, min, max, map,
}
use sbom_graph.Text.{Text, Unicode}
use sbom_graph.Validation.Parameters.{
  ℤ, pos, negsuc, Input, absent, number, text, int_of, validate_page, validate_page_size,
  validate_boolean, max_result_window,
}

abbrev pub db_stream_chunk : ℕ
db_stream_chunk = 1000

-- The pages that the generator yields; `none` is running out of fuel.
unfoldable pub iterate_pages : {A : Type 0} → (ℕ → ℕ → List A) → ℕ → ℕ → ℕ → Option (List (List A))
iterate_pages fetch_page chunk zero offset = none
iterate_pages fetch_page chunk (suc fuel) offset =
    let page = fetch_page offset chunk in
    let rest = iterate_pages fetch_page chunk fuel (offset + chunk) in
    elim page [
      | [] ↦ some []
      | row ∷ rows ↦
          if ltb (length (row ∷ rows)) chunk
          then some ((row ∷ rows) ∷ [])
          else elim rest [ none ↦ none | some pages ↦ some ((row ∷ rows) ∷ pages) ]
    ]

-- `SKIP` and `LIMIT`, where there is a limit.
unfoldable pub page_clause : Option ℕ → ℕ → Option (ℕ × ℕ)
page_clause none offset = none
page_clause (some limit) offset = some (offset, limit)

pub record PageRequest : Type 0 where
  pub page : ℕ
  pub page_size : ℕ
  pub unlimited : Bool

unfoldable pub offset : PageRequest → ℕ
offset req = min ((req.page - 1) * req.page_size) max_result_window

-- The arguments of a request: `args.get(name, type=int)` is the number that `int` reads, if any.
pub record Args : Type 0 where
  pub page : Option Text
  pub page_size : Option Text
  pub limit : Option Text
  pub all : Option Text

unfoldable pub natural : ℤ → ℕ
natural (pos n) = n
natural (negsuc n) = 0

module _ (u : Unicode) where
  unfoldable pub get_int : Option Text → Input
  unfolding int_of
  get_int none = absent
  get_int (some s) = elim (int_of u (text s)) [ none ↦ absent | some n ↦ number n ]

  unfoldable pub raw_page_size : Args → Input
  unfolding get_int
  raw_page_size args = elim (get_int args.page_size) [
    | number n ↦ number n
    | text s ↦ text s
    | absent ↦ elim args.limit [ none ↦ absent | some s ↦ get_int (some s) ]
  ]

  unfoldable pub parse_pagination : Args → PageRequest
  unfolding validate_page validate_page_size validate_boolean raw_page_size natural
  parse_pagination args = record {
    page = natural (validate_page u (get_int args.page) (pos 1));
    page_size = natural (validate_page_size u (raw_page_size args) (pos 100));
    unlimited = validate_boolean u args.all false;
  }

-- `max(1, math.ceil(total / page_size))`, and 1 for no page size.
unfoldable pub page_count : ℕ → ℕ → ℕ
page_count total page_size =
    if eqb page_size 0 then 1 else max 1 ((total + (page_size - 1)) / page_size)

-- The links to other page sizes are left out.
pub record PageView : Type 0 where
  pub page : ℕ
  pub pages : ℕ
  pub total : ℕ
  pub page_size : ℕ
  -- The page that the link goes to.
  pub prev : Option ℕ
  pub next : Option ℕ

unfoldable pub build_page_view : PageRequest → ℕ → PageView
unfolding page_count
build_page_view req total =
    let pages = page_count total req.page_size in
    record {
      page = req.page;
      pages = pages;
      total = total;
      page_size = req.page_size;
      prev = if ltb 1 req.page then some (req.page - 1) else none;
      next = if ltb req.page pages then some (req.page + 1) else none;
    }

-- The page that `render_paged_report` shows: `fetch_page(req.offset, req.page_size)`.
unfoldable pub shown_page : {A : Type 0} → (ℕ → ℕ → List A) → PageRequest → List A
unfolding offset
shown_page fetch_page req = fetch_page (offset req) req.page_size
