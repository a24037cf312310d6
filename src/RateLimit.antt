-- ===== src/RateLimit.antt =====
-- The limit of report requests per client: `_check_report_rate_limit` and
-- `_cleanup_stale_rate_entries` of sbom-graph-api/src/sbom_graph_api/routes/reports/_common.py. The
-- lock makes a check one step. Times are the nanoseconds of the monotonic clock.
pub mod Windows
pub mod Tests
use sbom_graph.Prelude.{
  ℕ, suc, ◌+◌, ◌-◌, ◌/◌, Bool, true, false, Option, none, some, List, [], ◌∷◌, String, ◌==◌,
  if◌then◌else◌, ltb, leb,
}
use sbom_graph.Dict.{Dict, put, lookup}

-- A second in nanoseconds.
abbrev pub second : ℕ
second = 1000000000

-- The window and the interval in nanoseconds, as they are compared with times.
abbrev pub rate_window : ℕ
rate_window = 60000000000

abbrev pub rate_cleanup_interval : ℕ
rate_cleanup_interval = 300000000000

abbrev pub reports_rate_limit_per_minute : ℕ
reports_rate_limit_per_minute = 600

-- A count of requests, and when its window began.
pub record Window : Type 0 where
  pub count : ℕ
  pub window_start : ℕ

pub record RateState : Type 0 where
  pub windows : Dict Window
  pub last_cleanup : ℕ

unfoldable pub cleanup_stale_rate_entries : ℕ → Dict Window → Dict Window
cleanup_stale_rate_entries now [] = []
cleanup_stale_rate_entries now ((client, w) ∷ d) =
    let rest = cleanup_stale_rate_entries now d in
    if ltb rate_window (now - w.window_start) then rest else (client, w) ∷ rest

-- The housekeeping of a check.
unfoldable pub tidied : ℕ → RateState → RateState
unfolding cleanup_stale_rate_entries
tidied now s =
    if ltb rate_cleanup_interval (now - s.last_cleanup)
    then record { windows = cleanup_stale_rate_entries now s.windows; last_cleanup = now }
    else s

-- The window of the request, that of before if there is one that has not ended.
unfoldable pub window_at : ℕ → Option Window → Window
window_at now none = record { count = 0; window_start = now }
window_at now (some w) =
    if leb rate_window (now - w.window_start) then record { count = 0; window_start = now } else w

unfoldable pub counted : ℕ → Option Window → Window
unfolding window_at
counted now entry = let w = window_at now entry in record w { count = suc w.count }

-- The `Retry-After` of a refusal: `int` cuts off the fraction of the seconds that are left.
unfoldable pub verdict : ℕ → ℕ → Window → Option ℕ
verdict limit now w =
    if ltb limit w.count then some ((rate_window - (now - w.window_start)) / second + 1) else none

unfoldable pub check_report_rate_limit : ℕ → String → ℕ → RateState → Option ℕ × RateState
unfolding tidied counted verdict put lookup
check_report_rate_limit limit client now s =
    let tidy = tidied now s in
    let w = counted now (lookup client tidy.windows) in
    (verdict limit now w, record tidy { windows = put client w tidy.windows })

-- The answers to a sequence of requests, each from a client at a time.
unfoldable pub answers : ℕ → RateState → List (String × ℕ) → List (String × Option ℕ)
unfolding check_report_rate_limit
answers limit s [] = []
answers limit s ((client, now) ∷ requests) =
    let (answer, next) = check_report_rate_limit limit client now s in
    (client, answer) ∷ answers limit next requests

unfoldable pub state_after : ℕ → RateState → List (String × ℕ) → RateState
unfolding check_report_rate_limit
state_after limit s [] = s
state_after limit s ((client, now) ∷ requests) =
    state_after limit (check_report_rate_limit limit client now s).1 requests
