-- ===== src/RateLimit/Windows/Limits.antt =====
-- What a client may expect of the limiter.
use sbom_graph.Prelude.{
  ℕ, ◌+◌, ◌-◌, ◌*◌, ◌/◌, ◌<◌, ◌≤◌, ◌≡◌, inl, inr, refl, sym, ap, ◌∙◌, subst, true, false, none,
  some, List, [], ◌∷◌, ◌++◌, String, ◌==◌, arith, ltb, leb, str_eq_self, All, Bool-cases,
}
use sbom_graph.RateLimit.{
  second, rate_window, Window, window_at, counted, verdict, check_report_rate_limit, answers,
  state_after,
}
use sbom_graph.RateLimit.Windows.{
  own_answers, times_of, answers_of, Ordered, admitted, admitted_minute,
}
use sbom_graph.RateLimit.Windows.Refinement.{
  counted_start, tidied-Tracks, own-Tracks, answers_of-answers, state_after-Tracks, times_of-All,
  empty_at, empty-Tracks,
}

-- After the wait of a refusal the window has ended.
waited :
    (limit now later wait : ℕ) (w : Window)
    → 1 ≤ limit
    → w.window_start ≤ now
    → now - w.window_start < rate_window
    → verdict limit now w ≡ some wait
    → now + wait * 1000000000 ≤ later
    → verdict limit later (counted later (some w)) ≡ none
unfolding verdict counted window_at
waited limit now later wait w room past young refused h = elim (Bool-cases (ltb limit w.count)) [
  | inr e ↦ let f = rw e at refused in cc
  | inl e ↦
      let f = rw e at refused in
      let g : (rate_window - (now - w.window_start)) / second + 1 ≡ wait = cc in
      let enough : rate_window - (now - w.window_start) < wait * 1000000000 = omega (arith, g) in
      let ended : leb rate_window (later - w.window_start) ≡ true =
        ground (arith, past, young, enough, h) in
      let low : ltb limit 1 ≡ false = ground (arith, room) in rw (ended, low) refl
]

module _ (limit : ℕ) (c : String) where
  -- From the start of the limiter on, while the clock does not go back, each client gets the answers
  -- that a limiter of its own would give to its requests alone, a limiter that keeps one window and
  -- forgets nothing: the requests of others and the housekeeping of the shared table make no
  -- difference.
  pub check_report_rate_limit-own :
      (start : ℕ) (requests : List (String × ℕ))
      → Ordered start requests
      → answers_of c (answers limit (empty_at start) requests)
        ≡ own_answers limit none (times_of c requests)
  check_report_rate_limit-own start requests o =
      answers_of-answers limit c start none (empty_at start) requests (empty-Tracks limit c start) o

  -- While the clock does not go back, of the requests that come within 60 seconds, whatever came
  -- before them, no more than twice the limit of each client are let through.
  pub check_report_rate_limit-admitted :
      (start from : ℕ) (earlier requests : List (String × ℕ))
      → Ordered start (earlier ++ requests)
      → All (λ r. (from ≤ r.1) × (r.1 < from + 60000000000)) requests
      → admitted
          (answers_of c (answers limit (state_after limit (empty_at start) earlier) requests))
        ≤ limit + limit
  check_report_rate_limit-admitted start from earlier requests o h =
      let (now, own, tracks, later) =
        state_after-Tracks limit c start none (empty_at start) earlier requests
          (empty-Tracks limit c start) o in
      subst (λ xs. admitted xs ≤ limit + limit)
        (sym (answers_of-answers limit c now own _ requests tracks later))
        (admitted_minute limit from own (times_of c requests)
          (times_of-All limit c (λ t. (from ≤ t) × (t < from + 60000000000)) requests h))

  times_of-append :
      (requests more : List (String × ℕ))
      → times_of c (requests ++ more) ≡ times_of c requests ++ times_of c more
  unfolding times_of
  times_of-append [] more = refl
  times_of-append ((d, now) ∷ requests) more = elim (Bool-cases (d == c)) [
    | inl e ↦ rw e (ap (λ xs. now ∷ xs) (times_of-append requests more))
    | inr e ↦ rw e (times_of-append requests more)
  ]

  -- Where the limit is not 0 and the clock does not go back, a client that is refused, after any
  -- requests since the limiter was started, and comes again when the seconds of `Retry-After` have
  -- passed, is let through, if it has sent nothing else, whatever others sent.
  pub check_report_rate_limit-wait :
      (start now later wait : ℕ) (earlier others : List (String × ℕ))
      → 1 ≤ limit
      → Ordered start (earlier ++ ((c, now) ∷ (others ++ (c, later) ∷ [])))
      → times_of c others ≡ []
      → (check_report_rate_limit limit c now (state_after limit (empty_at start) earlier)).0
        ≡ some wait
      → now + wait * 1000000000 ≤ later
      → answers_of c (
          answers limit
            (check_report_rate_limit limit c now (state_after limit (empty_at start) earlier)).1
            (others ++ (c, later) ∷ []))
        ≡ none ∷ []
  unfolding Ordered times_of own_answers
  check_report_rate_limit-wait start now later wait earlier others room o alone refused h =
      let (at, own, tracks, (le, rest)) =
        state_after-Tracks limit c start none (empty_at start) earlier _
          (empty-Tracks limit c start) o in
      let tidy = tidied-Tracks c at now own _ le tracks in
      let (answer, next) = own-Tracks limit c now own _ tidy in
      let (past, young) = counted_start now own tidy.past in
      let one_time : [] ++ times_of c ((c, later) ∷ []) ≡ later ∷ [] =
        rw (times_of, str_eq_self c) refl in
      let free =
        waited limit now later wait (counted now own) room past young (sym answer ∙ refused) h in
      answers_of-answers limit c now (some (counted now own)) _ (others ++ (c, later) ∷ []) next
        rest
      ∙ ap (λ times. own_answers limit (some (counted now own)) times)
          (times_of-append others ((c, later) ∷ [])
            ∙ ap (λ times. times ++ times_of c ((c, later) ∷ [])) alone
            ∙ one_time)
      ∙ ap (λ x. x ∷ []) free
