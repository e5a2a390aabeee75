-- ===== src/KillSwitch/Trips.antt =====
-- When the kill switch trips.
use asgard_hl_basisstrategy.Base.{
  ℕ, String, Bool, true, false, not, ◌≡◌, refl, Option, none, some, List, [], ◌∷◌, any, ok, raises,
  if◌then◌else◌, arith,
}
use asgard_hl_basisstrategy.KillSwitch.{
  KillSwitchMonitor, Files, reason_of, calls_of, check_kill_switch, monitor_loop,
}

-- Whether a check finds the file.
abbrev pub found : Files → Bool
found f = elim f.exists [ ok there ↦ there | raises e ↦ false ]

-- The first check that finds the file.
abbrev pub first_found : List Files → Option Files
first_found [] = none
first_found (f ∷ fs) = if found f then some f else first_found fs

abbrev pub expected_calls : Option ℕ → Option Files → List (ℕ × String)
expected_calls callback none = []
expected_calls callback (some f) = calls_of callback (reason_of f.read_text)

stopped_loop :
    (fs : List Files) (m : KillSwitchMonitor) → m.running ≡ false → monitor_loop fs m ≡ (m, [])
unfolding monitor_loop
stopped_loop [] m h = refl
stopped_loop (f ∷ fs) m h = ground (arith, h)

-- A running monitor trips at the first check that finds the file, whether the file can be read or
-- removed: then it stops and runs its callback once, with the text of the file or the reason that
-- stands for it. If no check finds the file, it keeps running and runs nothing.
pub monitor_loop_lem :
    (fs : List Files) (m : KillSwitchMonitor)
    → m.running ≡ true
    → ((monitor_loop fs m).0 ≡ record m { running = not (any found fs) })
      × ((monitor_loop fs m).1 ≡ expected_calls m.on_triggered (first_found fs))
unfolding monitor_loop check_kill_switch
monitor_loop_lem [] m h = ground (arith, h)
monitor_loop_lem (f ∷ fs) m h =
    ground (arith, h, monitor_loop_lem fs m h, stopped_loop fs (record m { running = false }) refl)
