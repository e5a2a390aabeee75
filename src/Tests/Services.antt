-- ===== src/Tests/Services.antt =====
-- The background loops on concrete rounds.
use asgard_hl_basisstrategy.Base.{
  ◌<◌, ◌≡◌, ◌%◌, refl, List, [], ◌∷◌, false, none, some, Result, ok, raises, exception,
}
use asgard_hl_basisstrategy.Services.{Service, position_monitor, run_round, run_rounds, start, stop}
use asgard_hl_basisstrategy.Services.Rounds.{failures_from, expected_sleeps, run_rounds_lem}

abbrev fresh : Service
fresh = record { running = false; task = none; consecutive_errors = 0 }

abbrev fails : Result (Unit {0})
fails = raises (exception "timeout")

abbrev rounds : List (Result (Unit {0}))
rounds = fails ∷ ok tt ∷ fails ∷ fails ∷ fails ∷ fails ∷ fails ∷ fails ∷ []

rounds_test :
    (run_rounds position_monitor rounds fresh []).1 ≡ 30 ∷ 120 ∷ 30 ∷ 30 ∷ 30 ∷ 30 ∷ 30 ∷ 30 ∷ []
unfolding run_rounds run_round
rounds_test = refl

start_test : (start 2 (start 1 fresh)).task ≡ some 1
unfolding start
start_test = refl

stop_test : (stop (start 1 fresh)).1 ≡ some 1
unfolding start stop
stop_test = refl

run_rounds_lem_example :
    ((run_rounds position_monitor rounds fresh []).0.consecutive_errors
      ≡ failures_from 0 rounds % 5)
    × ((run_rounds position_monitor rounds fresh []).0.consecutive_errors < 5)
    × ((run_rounds position_monitor rounds fresh []).1
        ≡ expected_sleeps position_monitor 0 rounds [])
run_rounds_lem_example = run_rounds_lem position_monitor rounds fresh refl refl
