-- ===== src/RateLimit/Windows/Refinement.antt =====
-- The shared table against a limiter of one client.
use sbom_graph.Prelude.{
  ℕ, ◌-◌, ◌<◌, ◌≤◌, ◌≡◌, ◌≢◌, ◌⊎◌, inl, inr, refl, sym, ap, ◌∙◌, subst, true, Option, none, some,
  List, [], ◌∷◌, ◌++◌, String, ◌==◌, arith, ltb, leb, ltb→lt, eq_iff, not_same, All, Bool-cases,
}
use sbom_graph.Dict.{Dict, lookup, key_list, Distinct, put-Distinct, lookup_here, lookup_other}
use sbom_graph.RateLimit.{
  rate_window, rate_cleanup_interval, Window, RateState, cleanup_stale_rate_entries, tidied,
  window_at, counted, verdict, check_report_rate_limit, answers, state_after,
}
use sbom_graph.RateLimit.Windows.{own_answers, times_of, answers_of, Ordered}

lookup_absent : (c : String) (d : Dict Window) → All (λ j. c ≢ j) (key_list d) → lookup c d ≡ none
unfolding key_list lookup
lookup_absent c [] h = refl
lookup_absent c ((k, w) ∷ d) h = rw (not_same k c (λ e. h.0 (sym e)), lookup_absent c d h.1) refl

cleanup-All :
    (now : ℕ) (P : String → Type 0) (d : Dict Window)
    → All P (key_list d)
    → All P (key_list (cleanup_stale_rate_entries now d))
unfolding key_list cleanup_stale_rate_entries
cleanup-All now P [] h = tt
cleanup-All now P ((k, w) ∷ d) h = elim (Bool-cases (ltb rate_window (now - w.window_start))) [
  | inl e ↦ rw e (cleanup-All now P d h.1)
  | inr e ↦ rw e (h.0, cleanup-All now P d h.1)
]

cleanup-Distinct :
    (now : ℕ) (d : Dict Window) → Distinct d → Distinct (cleanup_stale_rate_entries now d)
unfolding Distinct key_list cleanup_stale_rate_entries
cleanup-Distinct now [] h = tt
cleanup-Distinct now ((k, w) ∷ d) h = elim (Bool-cases (ltb rate_window (now - w.window_start))) [
  | inl e ↦ rw e (cleanup-Distinct now d h.1)
  | inr e ↦ rw e (cleanup-All now (λ j. k ≢ j) d h.0, cleanup-Distinct now d h.1)
]

-- What the table has for a client is its window, or nothing, when that has ended by `now`.
unfoldable pub Agrees : ℕ → Option Window → Option Window → Type 0
Agrees now entry own =
    (entry ≡ own)
    ⊎ ((entry ≡ none) × ((w : Window) × (own ≡ some w) × (rate_window ≤ now - w.window_start)))

cleanup-Agrees :
    (now : ℕ) (c : String) (d : Dict Window)
    → Distinct d
    → Agrees now (lookup c (cleanup_stale_rate_entries now d)) (lookup c d)
unfolding Distinct key_list cleanup_stale_rate_entries lookup Agrees
cleanup-Agrees now c [] h = inl refl
cleanup-Agrees now c ((k, w) ∷ d) h = elim (Bool-cases (ltb rate_window (now - w.window_start))) [
  | inr e ↦ rw e (elim (Bool-cases (k == c)) [
    | inl f ↦ rw f (inl refl)
    | inr f ↦ rw f (cleanup-Agrees now c d h.1)
  ])
  | inl e ↦ rw e (elim (Bool-cases (k == c)) [
    | inl f ↦ rw f (
        inr (
          lookup_absent c (cleanup_stale_rate_entries now d) (
              cleanup-All now (λ j. c ≢ j) d
                (subst (λ x. All (λ j. x ≢ j) (key_list d)) ((eq_iff k c).0 f) h.0)),
          (w, refl, omega (arith, ltb→lt rate_window (now - w.window_start) e)),
        ))
    | inr f ↦ rw f (cleanup-Agrees now c d h.1)
  ])
]

Agrees-later :
    (now later : ℕ) (entry own : Option Window)
    → now ≤ later
    → Agrees now entry own
    → Agrees later entry own
unfolding Agrees
Agrees-later now later entry own h (inl e) = inl e
Agrees-later now later entry own h (inr (e, (w, f, ended))) =
    inr (e, (w, f, omega (arith, h, ended)))

Agrees-trans :
    (now : ℕ) (first entry own : Option Window)
    → Agrees now first entry
    → Agrees now entry own
    → Agrees now first own
unfolding Agrees
Agrees-trans now first entry own (inl e) h = subst (λ x. Agrees now x own) (sym e) h
Agrees-trans now first entry own (inr (e, (w, f, ended))) (inl g) = inr (e, (w, sym g ∙ f, ended))
Agrees-trans now first entry own (inr (e, (w, f, ended))) (inr (g, more)) = cc

-- A window that has ended counts for nothing.
Agrees-counted :
    (now : ℕ) (entry own : Option Window)
    → Agrees now entry own
    → counted now entry ≡ counted now own
unfolding Agrees counted window_at
Agrees-counted now entry own (inl e) = ap (counted now) e
Agrees-counted now entry own (inr (e, (w, f, ended))) =
    let k : leb rate_window (now - w.window_start) ≡ true = ground (arith, ended) in
    rw (e, f, k) refl

unfoldable pub Past : ℕ → Option Window → Type 0
Past now none = Unit
Past now (some w) = w.window_start ≤ now

Past-later : (now later : ℕ) (own : Option Window) → now ≤ later → Past now own → Past later own
unfolding Past
Past-later now later none h k = tt
Past-later now later (some w) h k = omega (arith, h, k)

-- A window that counts began in the minute before.
pub counted_start :
    (now : ℕ) (own : Option Window)
    → Past now own
    → ((counted now own).window_start ≤ now) × (now - (counted now own).window_start < rate_window)
unfolding Past counted window_at
counted_start now none h = (omega arith, omega arith)
counted_start now (some w) h = elim (Bool-cases (leb rate_window (now - w.window_start))) [
  | inl e ↦ rw e (omega arith, omega arith)
  | inr e ↦ rw e (h, ground arith)
]

-- The state of the limiter, as far as one client is concerned.
pub record Tracks (c : String) (now : ℕ) (own : Option Window) (s : RateState) : Type 0 where
  pub keys : Distinct s.windows
  pub agrees : Agrees now (lookup c s.windows) own
  pub past : Past now own

pub tidied-Tracks :
    (c : String) (before now : ℕ) (own : Option Window) (s : RateState)
    → before ≤ now
    → Tracks c before own s
    → Tracks c now own (tidied now s)
unfolding tidied
tidied-Tracks c before now own s le h =
    let later = Agrees-later before now (lookup c s.windows) own le h.agrees in
    elim (Bool-cases (ltb rate_cleanup_interval (now - s.last_cleanup))) [
      | inr e ↦
          rw e
            (record { keys = h.keys; agrees = later; past = Past-later before now own le h.past })
      | inl e ↦ rw e (record {
        keys = cleanup-Distinct now s.windows h.keys;
        agrees =
            Agrees-trans now _ (lookup c s.windows) own (cleanup-Agrees now c s.windows h.keys)
              later;
        past = Past-later before now own le h.past;
      })
    ]

-- The limiter when the service starts.
abbrev pub empty_at : ℕ → RateState
empty_at start = record { windows = []; last_cleanup = start }

module _ (limit : ℕ) (c : String) where
  -- A request of the client itself.
  pub own-Tracks :
      (now : ℕ) (own : Option Window) (s : RateState)
      → Tracks c now own (tidied now s)
      → ((check_report_rate_limit limit c now s).0 ≡ verdict limit now (counted now own))
        × Tracks c now (some (counted now own)) (check_report_rate_limit limit c now s).1
  unfolding check_report_rate_limit Agrees Past
  own-Tracks now own s h =
      let same = Agrees-counted now (lookup c (tidied now s).windows) own h.agrees in
      (
        ap (λ w. verdict limit now w) same,
        record {
          keys = put-Distinct c _ (tidied now s).windows h.keys;
          agrees = inl (lookup_here c _ (tidied now s).windows ∙ ap (λ w. some w) same);
          past = (counted_start now own h.past).0;
        },
      )

  other-Tracks :
      (d : String) (now : ℕ) (own : Option Window) (s : RateState)
      → c ≢ d
      → Tracks c now own (tidied now s)
      → Tracks c now own (check_report_rate_limit limit d now s).1
  unfolding check_report_rate_limit
  other-Tracks d now own s ne h = record {
    keys = put-Distinct d _ (tidied now s).windows h.keys;
    agrees =
        subst (λ x. Agrees now x own) (sym (lookup_other d c _ (tidied now s).windows ne)) h.agrees;
    past = h.past;
  }

  pub answers_of-answers :
      (before : ℕ) (own : Option Window) (s : RateState) (requests : List (String × ℕ))
      → Tracks c before own s
      → Ordered before requests
      → answers_of c (answers limit s requests) ≡ own_answers limit own (times_of c requests)
  unfolding answers answers_of own_answers times_of Ordered check_report_rate_limit
  answers_of-answers before own s [] h o = refl
  answers_of-answers before own s ((d, now) ∷ requests) h (le, o) =
      let tidy = tidied-Tracks c before now own s le h in
      elim (Bool-cases (d == c)) [
        | inr e ↦ rw e (
            answers_of-answers now own _ requests
              (other-Tracks d now own s
                (λ same. let f : (d == c) ≡ true = (eq_iff d c).1 (sym same) in cc) tidy)
              o)
        | inl e ↦
            let same : d ≡ c = (eq_iff d c).0 e in
            let (answer, tracks) = own-Tracks now own s tidy in
            rw (e, same)
              (ap
                  (λ x.
                    x
                    ∷ answers_of c
                        (answers limit (check_report_rate_limit limit c now s).1 requests))
                  answer
                ∙ ap (λ xs. verdict limit now (counted now own) ∷ xs)
                    (answers_of-answers now (some (counted now own)) _ requests tracks o))
      ]

  -- After any requests the table still has a window of the client, or one that has ended.
  pub state_after-Tracks :
      (start : ℕ) (own : Option Window) (s : RateState) (requests more : List (String × ℕ))
      → Tracks c start own s
      → Ordered start (requests ++ more)
      → (now : ℕ) × (later : Option Window) × Tracks c now later (state_after limit s requests)
        × Ordered now more
  unfolding state_after Ordered
  state_after-Tracks start own s [] more h o = (start, own, h, o)
  state_after-Tracks start own s ((d, now) ∷ requests) more h (le, o) =
      let tidy = tidied-Tracks c start now own s le h in
      elim (Bool-cases (d == c)) [
        | inr e ↦
            state_after-Tracks now own _ requests more
              (other-Tracks d now own s
                (λ same. let f : (d == c) ≡ true = (eq_iff d c).1 (sym same) in cc) tidy)
              o
        | inl e ↦
            let same : d ≡ c = (eq_iff d c).0 e in
            rw same (
              state_after-Tracks now (some (counted now own)) _ requests more
                (own-Tracks now own s tidy).1 o)
      ]

  pub times_of-All :
      (P : ℕ → Type 0) (requests : List (String × ℕ))
      → All (λ r. P r.1) requests
      → All P (times_of c requests)
  unfolding times_of
  times_of-All P [] h = tt
  times_of-All P ((d, now) ∷ requests) h = elim (Bool-cases (d == c)) [
    | inl e ↦ rw e (h.0, times_of-All P requests h.1)
    | inr e ↦ rw e (times_of-All P requests h.1)
  ]

  pub empty-Tracks : (start : ℕ) → Tracks c start none (empty_at start)
  unfolding Distinct key_list lookup Agrees Past
  empty-Tracks start = record { keys = tt; agrees = inl refl; past = tt }
