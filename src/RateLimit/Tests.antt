-- ===== src/RateLimit/Tests.antt =====
-- Two clients and a limit of two requests, at times in nanoseconds, some between two seconds.
use sbom_graph.Prelude.{ℕ, ◌+◌, ◌≤◌, ◌≡◌, refl, none, some, List, [], ◌∷◌, ◌++◌, String, arith}
use sbom_graph.RateLimit.{check_report_rate_limit, answers, state_after}
use sbom_graph.RateLimit.Windows.{own_answers, times_of, answers_of, Ordered, admitted}
use sbom_graph.RateLimit.Windows.Refinement.{empty_at}
use sbom_graph.RateLimit.Windows.Limits.{
  check_report_rate_limit-own, check_report_rate_limit-admitted, check_report_rate_limit-wait,
}

abbrev earlier : List (String × ℕ)
earlier = ("a", 5000000000) ∷ ("b", 6000000000) ∷ ("a", 7000000000) ∷ []

abbrev requests : List (String × ℕ)
requests =
    ("a", 5000000000)
    ∷ ("b", 6000000000)
    ∷ ("a", 7000000000)
    ∷ ("a", 10500000000)
    ∷ ("b", 20000000000)
    ∷ ("a", 66000000000)
    ∷ ("a", 400000000000)
    ∷ []

program : Unit {0}
unfolding answers state_after own_answers times_of answers_of admitted Ordered
program = tt

answers_run :
    answers 2 (empty_at 0) requests
    ≡ ("a", none)
      ∷ ("b", none)
      ∷ ("a", none)
      ∷ ("a", some 55)
      ∷ ("b", none)
      ∷ ("a", none)
      ∷ ("a", none)
      ∷ []
unfolding program
answers_run = refl

requests-Ordered : Ordered 0 requests
unfolding Ordered
requests-Ordered = (
  omega arith,
  (omega arith, (omega arith, (omega arith, (omega arith, (omega arith, (omega arith, tt)))))),
)

check_report_rate_limit-own_example :
    answers_of "a" (answers 2 (empty_at 0) requests) ≡ own_answers 2 none (times_of "a" requests)
check_report_rate_limit-own_example = check_report_rate_limit-own 2 "a" 0 requests requests-Ordered

check_report_rate_limit-admitted_example :
    admitted (
      answers_of "a" (
        answers 2
          (state_after 2 (empty_at 0) earlier)
          (("a", 10500000000) ∷ ("b", 20000000000) ∷ ("a", 66000000000) ∷ [])))
    ≤ 2 + 2
unfolding Ordered
check_report_rate_limit-admitted_example =
    check_report_rate_limit-admitted 2 "a" 0 7000000000 earlier
      (("a", 10500000000) ∷ ("b", 20000000000) ∷ ("a", 66000000000) ∷ [])
      (omega arith, (omega arith, (omega arith, (omega arith, (omega arith, (omega arith, tt))))))
      ((omega arith, omega arith), ((omega arith, omega arith), ((omega arith, omega arith), tt)))

check_report_rate_limit-wait_example :
    answers_of "a" (
      answers 2
        (check_report_rate_limit 2 "a" 10500000000 (state_after 2 (empty_at 0) earlier)).1
        ((("b", 20000000000) ∷ []) ++ ("a", 66000000000) ∷ []))
    ≡ none ∷ []
unfolding program
check_report_rate_limit-wait_example =
    check_report_rate_limit-wait 2 "a" 0 10500000000 66000000000 55 earlier
      (("b", 20000000000) ∷ []) (omega arith)
      (omega arith, (omega arith, (omega arith, (omega arith, (omega arith, (omega arith, tt))))))
      refl refl (omega arith)
