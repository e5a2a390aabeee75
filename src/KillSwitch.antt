-- ===== src/KillSwitch.antt =====
-- bot/core/kill_switch.py: class KillSwitchMonitor. What the file system answers in a check is an
-- argument; the callback is a number, and an exception that it raises is swallowed.
pub mod Trips
use asgard_hl_basisstrategy.Base.{
  ℕ, String, Bool, true, false, Option, none, some, is_some, List, [], ◌∷◌, str_eq, Result, ok,
  raises, if◌then◌else◌,
}

pub record KillSwitchMonitor : Type 0 where
  pub check_interval : ℕ
  pub running : Bool
  pub task : Option ℕ
  pub on_triggered : Option ℕ

unfoldable pub init : ℕ → KillSwitchMonitor
init interval = record {
  check_interval = interval;
  running = false;
  task = none;
  on_triggered = none;
}

unfoldable pub register : ℕ → KillSwitchMonitor → KillSwitchMonitor
register callback m = record m { on_triggered = some callback }

unfoldable pub start : ℕ → KillSwitchMonitor → KillSwitchMonitor
start task m = if m.running then m else record m { running = true; task = some task }

-- The task that is cancelled, if any.
unfoldable pub stop : KillSwitchMonitor → KillSwitchMonitor × Option ℕ
stop m = if m.running then (record m { running = false }, m.task) else (m, none)

-- What the file system answers in one check: whether the file is there, what its stripped text is,
-- and whether it could be removed.
pub record Files : Type 0 where
  pub exists : Result Bool
  pub read_text : Result String
  pub unlink : Result (Unit {0})

abbrev pub reason_of : Result String → String
reason_of (raises e) = "Kill switch file detected (could not read contents)"
reason_of (ok text) = if str_eq text "" then "Kill switch file detected" else text

-- The run of a callback with its reason.
abbrev pub calls_of : Option ℕ → String → List (ℕ × String)
calls_of none reason = []
calls_of (some callback) reason = (callback, reason) ∷ []

-- The file is gone from here on, or the failure to remove it is logged; either way the monitoring
-- stops.
unfoldable pub check_kill_switch :
    Files → KillSwitchMonitor → Result (KillSwitchMonitor × List (ℕ × String))
check_kill_switch f m = elim f.exists [
  | raises e ↦ raises e
  | ok there ↦
      if there
      then ok (record m { running = false }, calls_of m.on_triggered (reason_of f.read_text))
      else ok (m, [])
]

-- The loop, over what its checks meet: a failed check is logged, and the next one follows the sleep.
unfoldable pub monitor_loop : List Files → KillSwitchMonitor → KillSwitchMonitor × List (ℕ × String)
monitor_loop [] m = (m, [])
monitor_loop (f ∷ fs) m = elim (m.running) [
  | false ↦ (m, [])
  | true ↦ elim (check_kill_switch f m) [
    | raises e ↦ monitor_loop fs m
    | ok (m', []) ↦ monitor_loop fs m'
    | ok (m', call ∷ calls) ↦ let (m'', calls') = monitor_loop fs m' in (m'', call ∷ calls')
  ]
]

unfoldable pub is_running : KillSwitchMonitor → Bool → Bool
is_running m done =
    if m.running then (if is_some m.task then (if done then false else true) else false) else false
