-- ===== src/Services/Rounds.antt =====
-- When the background loops back off.
use asgard_hl_basisstrategy.Base.{
  ℕ, ◌+◌, ◌<◌, ◌≡◌, refl, ◌==◌, List, [], ◌∷◌, Result, ok, raises, if◌then◌else◌, arith, ◌%◌,
}
use asgard_hl_basisstrategy.Services.{Intervals, Service, run_round, run_rounds}

-- The failures since the last success, from a number before.
abbrev pub failures_from : ℕ → List (Result (Unit {0})) → ℕ
failures_from n [] = n
failures_from n (ok t ∷ rs) = failures_from 0 rs
failures_from n (raises e ∷ rs) = failures_from (n + 1) rs

-- The sleeps that a run should have: after a number of failures that is a multiple of five the
-- backoff, else the interval.
abbrev pub expected_sleeps : Intervals → ℕ → List (Result (Unit {0})) → List ℕ → List ℕ
expected_sleeps v n [] sleeps = sleeps
expected_sleeps v n (ok t ∷ rs) sleeps = expected_sleeps v 0 rs (v.interval ∷ sleeps)
expected_sleeps v n (raises e ∷ rs) sleeps =
    expected_sleeps v (n + 1) rs
      ((if (n + 1) % 5 == 0 then v.backoff_interval else v.interval) ∷ sleeps)

run_rounds-from :
    (v : Intervals) (n : ℕ) (rs : List (Result (Unit {0}))) (s : Service) (sleeps : List ℕ)
    → v.max_errors_before_backoff ≡ 5
    → s.consecutive_errors ≡ n % 5
    → ((run_rounds v rs s sleeps).0.consecutive_errors ≡ failures_from n rs % 5)
      × ((run_rounds v rs s sleeps).1 ≡ expected_sleeps v n rs sleeps)
unfolding run_rounds run_round
run_rounds-from v n [] s sleeps five h = (h, refl)
run_rounds-from v n (ok t ∷ rs) s sleeps five h =
    run_rounds-from v 0 rs (record s { consecutive_errors = 0 }) (v.interval ∷ sleeps) five
      (omega arith)
run_rounds-from v n (raises e ∷ rs) s sleeps five h = ground (
  arith,
  run_rounds-from v (n + 1) rs (run_round v (raises e) s).0 ((run_round v (raises e) s).1 ∷ sleeps)
      five,
)

-- With a maximum of five errors, a loop that starts without errors counts the failures since the
-- last success modulo five, so it never counts five, and it backs off exactly after every fifth
-- failure in a row and otherwise sleeps its interval.
pub run_rounds_lem :
    (v : Intervals) (rs : List (Result (Unit {0}))) (s : Service)
    → v.max_errors_before_backoff ≡ 5
    → s.consecutive_errors ≡ 0
    → ((run_rounds v rs s []).0.consecutive_errors ≡ failures_from 0 rs % 5)
      × ((run_rounds v rs s []).0.consecutive_errors < 5)
      × ((run_rounds v rs s []).1 ≡ expected_sleeps v 0 rs [])
run_rounds_lem v rs s five h =
    let (counted, slept) = run_rounds-from v 0 rs s [] five (omega arith) in
    (counted, omega arith, slept)
