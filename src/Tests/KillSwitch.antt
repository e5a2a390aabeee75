-- ===== src/Tests/KillSwitch.antt =====
-- The kill switch on concrete checks.
use asgard_hl_basisstrategy.Base.{
  ◌≡◌, refl, true, false, not, some, List, [], ◌∷◌, any, ok, raises, value_error,
}
use asgard_hl_basisstrategy.KillSwitch.{
  KillSwitchMonitor, Files, init, register, start, stop, check_kill_switch, monitor_loop,
}
use asgard_hl_basisstrategy.KillSwitch.Trips.{found, first_found, expected_calls, monitor_loop_lem}

abbrev monitor : KillSwitchMonitor
monitor = record { check_interval = 5; running = true; task = some 1; on_triggered = some 9 }

abbrev absent : Files
absent = record { exists = ok false; read_text = ok ""; unlink = ok tt }

abbrev unreadable : Files
unreadable = record {
  exists = ok true;
  read_text = raises (value_error "permission denied");
  unlink = ok tt;
}

abbrev checks : List Files
checks = absent ∷ unreadable ∷ unreadable ∷ []

start_test : (start 1 (register 9 (init 5)) ≡ monitor) × ((stop monitor).1 ≡ some 1)
unfolding init register start stop
start_test = (refl, refl)

loop_test :
    (monitor_loop checks monitor).1
    ≡ (9, "Kill switch file detected (could not read contents)") ∷ []
unfolding monitor_loop check_kill_switch
loop_test = refl

monitor_loop_lem_example :
    ((monitor_loop checks monitor).0 ≡ record monitor { running = not (any found checks) })
    × ((monitor_loop checks monitor).1 ≡ expected_calls monitor.on_triggered (first_found checks))
monitor_loop_lem_example = monitor_loop_lem checks monitor refl
