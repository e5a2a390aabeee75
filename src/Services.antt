-- ===== src/Services.antt =====
-- The background loop of bot/core/intent_scanner.py, bot/core/autonomous_scanner.py and
-- bot/core/position_monitor.py: the three classes have one `_run_loop`, `start` and `stop` with
-- other intervals. A round is given by what its cycle answers, and gives the seconds it sleeps.
pub mod Rounds
use asgard_hl_basisstrategy.Base.{
  ℕ, ◌+◌, Bool, true, false, Option, none, some, List, [], ◌∷◌, leb, Result, ok, raises,
  if◌then◌else◌,
}

pub record Intervals : Type 0 where
  pub interval : ℕ
  pub max_errors_before_backoff : ℕ
  pub backoff_interval : ℕ

abbrev pub intent_scanner : Intervals
intent_scanner = record { interval = 60; max_errors_before_backoff = 5; backoff_interval = 180 }

abbrev pub autonomous_scanner : Intervals
autonomous_scanner = record { interval = 60; max_errors_before_backoff = 5; backoff_interval = 300 }

abbrev pub position_monitor : Intervals
position_monitor = record { interval = 30; max_errors_before_backoff = 5; backoff_interval = 120 }

-- `task` counts the tasks made so far: the last of them is the current one.
pub record Service : Type 0 where
  pub running : Bool
  pub task : Option ℕ
  pub consecutive_errors : ℕ

unfoldable pub start : ℕ → Service → Service
start task s = if s.running then s else record s { running = true; task = some task }

-- The task that is cancelled, if any.
unfoldable pub stop : Service → Service × Option ℕ
stop s = (record s { running = false }, s.task)

-- One round of the loop: the new service and the sleep.
unfoldable pub run_round : Intervals → Result (Unit {0}) → Service → Service × ℕ
run_round v (ok t) s = (record s { consecutive_errors = 0 }, v.interval)
run_round v (raises e) s =
    if leb v.max_errors_before_backoff (s.consecutive_errors + 1)
    then (record s { consecutive_errors = 0 }, v.backoff_interval)
    else (record s { consecutive_errors = s.consecutive_errors + 1 }, v.interval)

-- The rounds while the service runs, with their sleeps, the last one first.
unfoldable pub run_rounds :
    Intervals → List (Result (Unit {0})) → Service → List ℕ → Service × List ℕ
run_rounds v [] s sleeps = (s, sleeps)
run_rounds v (r ∷ rs) s sleeps =
    let (s', slept) = run_round v r s in run_rounds v rs s' (slept ∷ sleeps)
