-- ===== src/RateLimit/Windows.antt =====
-- The limiter as each client sees it: a window of its own, and no housekeeping.
pub mod Refinement
pub mod Limits
use sbom_graph.Prelude.{
  ℕ, zero, suc, ◌+◌, ◌-◌, ◌<◌, ◌≤◌, ◌≡◌, ◌≢◌, ◌⊎◌, inl, inr, refl, sym, ap, ◌∙◌, subst, Bool, true,
  false, Option, none, some, List, [], ◌∷◌, ◌++◌, String, ◌==◌, arith, if◌then◌else◌, ltb, leb,
  ltb→lt, All, All-map, All-In, Bool-cases,
}
use sbom_graph.Dict.{Dict, put, lookup, key_list, Distinct}
use sbom_graph.RateLimit.{
  second, rate_window, rate_cleanup_interval, Window, RateState, cleanup_stale_rate_entries, tidied,
  window_at, counted, verdict, check_report_rate_limit, answers,
}

-- The answers to the requests of one client at the given times.
unfoldable pub own_answers : ℕ → Option Window → List ℕ → List (Option ℕ)
unfolding counted verdict
own_answers limit entry [] = []
own_answers limit entry (now ∷ times) =
    let w = counted now entry in verdict limit now w ∷ own_answers limit (some w) times

unfoldable pub times_of : String → List (String × ℕ) → List ℕ
times_of client [] = []
times_of client ((other, now) ∷ requests) =
    let rest = times_of client requests in if other == client then now ∷ rest else rest

unfoldable pub answers_of : String → List (String × Option ℕ) → List (Option ℕ)
answers_of client [] = []
answers_of client ((other, answer) ∷ more) =
    let rest = answers_of client more in if other == client then answer ∷ rest else rest

-- The clock does not go back.
unfoldable pub Ordered : ℕ → List (String × ℕ) → Type 0
Ordered before [] = Unit
Ordered before ((client, now) ∷ requests) = (before ≤ now) × Ordered now requests

-- How many requests are let through.
unfoldable pub admitted : List (Option ℕ) → ℕ
admitted [] = 0
admitted (answer ∷ more) =
    let rest = admitted more in elim answer [ none ↦ suc rest | some wait ↦ rest ]

-- Within one window no more than the limit are let through.
admitted_window :
    (limit : ℕ) (w : Window) (times : List ℕ)
    → All (λ now. now - w.window_start < rate_window) times
    → admitted (own_answers limit (some w) times) ≤ limit - w.count
unfolding admitted own_answers counted window_at verdict
admitted_window limit w [] h = omega arith
admitted_window limit w (now ∷ times) h =
    let early : leb rate_window (now - w.window_start) ≡ false = ground (arith, h.0) in
    let ih = admitted_window limit (record w { count = suc w.count }) times h.1 in
    elim (Bool-cases (ltb limit (suc w.count))) [
      | inl e ↦ rw (early, e) (omega (arith, ih))
      | inr e ↦
          let room : suc w.count ≤ limit = ground arith in rw (early, e) (omega (arith, ih, room))
    ]

-- The first request of a window, and those that follow within a minute.
admitted_fresh :
    (limit start now : ℕ) (entry : Option Window) (times : List ℕ)
    → start ≤ now
    → All (λ t. (start ≤ t) × (t < start + rate_window)) times
    → window_at now entry ≡ record { count = 0; window_start = now }
    → admitted (own_answers limit entry (now ∷ times)) ≤ limit
unfolding admitted own_answers counted verdict
admitted_fresh limit start now entry times late h e =
    let w : Window = record { count = 1; window_start = now } in
    let ih = admitted_window limit w times (
      All-map (λ t. (start ≤ t) × (t < start + rate_window)) (λ t. t - now < rate_window) times
        (λ t k. omega (arith, k.0, k.1, late)) h) in
    elim (Bool-cases (ltb limit 1)) [
      | inl f ↦ rw (e, f) (omega (arith, ih))
      | inr f ↦ let room : 1 ≤ limit = ground arith in rw (e, f) (omega (arith, ih, room))
    ]

admitted_open :
    (limit start : ℕ) (w : Window) (times : List ℕ)
    → All (λ t. (start ≤ t) × (t < start + rate_window)) times
    → admitted (own_answers limit (some w) times) ≤ (limit - w.count) + limit
unfolding own_answers counted window_at verdict admitted
admitted_open limit start w [] h = omega arith
admitted_open limit start w (now ∷ times) h =
    elim (Bool-cases (leb rate_window (now - w.window_start))) [
      | inl ended ↦
          omega (arith, admitted_fresh limit start now (some w) times h.0.0 h.1 (rw ended refl))
      | inr going ↦
          let ih = admitted_open limit start (record w { count = suc w.count }) times h.1 in
          elim (Bool-cases (ltb limit (suc w.count))) [
            | inl e ↦ rw (going, e) (omega (arith, ih))
            | inr e ↦
                let room : suc w.count ≤ limit = ground arith in
                rw (going, e) (omega (arith, ih, room))
          ]
    ]

-- Within 60 seconds no more than twice the limit are let through.
pub admitted_minute :
    (limit start : ℕ) (entry : Option Window) (times : List ℕ)
    → All (λ t. (start ≤ t) × (t < start + rate_window)) times
    → admitted (own_answers limit entry times) ≤ limit + limit
unfolding window_at own_answers admitted
admitted_minute limit start (some w) times h = omega (arith, admitted_open limit start w times h)
admitted_minute limit start none [] h = omega arith
admitted_minute limit start none (now ∷ times) h =
    omega (arith, admitted_fresh limit start now none times h.0.0 h.1 refl)
