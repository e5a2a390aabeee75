-- ===== src/Tests/Pause.antt =====
-- The pause controller on concrete histories.
use asgard_hl_basisstrategy.Base.{ℕ, ◌≡◌, ◌≢◌, refl, true, false, none, some, List, [], ◌∷◌, arith}
use asgard_hl_basisstrategy.Pause.{
  PauseController, lst_depeg, manual, high_gas, all, exit, entry, init, pause, resume,
  has_active_breakers, resolve_one, can_execute,
}
use asgard_hl_basisstrategy.Pause.Breakers.{
  trigger_circuit_breaker, resolve_circuit_breaker, check_and_recover,
}
use asgard_hl_basisstrategy.Pause.Calls.{Call, pauses, resumes, triggers, step, run}
use asgard_hl_basisstrategy.Pause.Invariant.{IsConsistent, run-IsConsistent}

abbrev history : List (ℕ × Call)
history =
    (10, pauses "secret" "audit" all)
    ∷ (20, triggers high_gas "gas" exit true (some 5))
    ∷ (30, triggers lst_depeg "depeg" all false none)
    ∷ []

abbrev controller : PauseController
controller = run (init "secret" 60) history

paused_test : (controller.paused ≡ true) × (can_execute "exit" controller ≡ false)
unfolding run step init pause trigger_circuit_breaker can_execute
paused_test = (refl, refl)

recovers_test : (check_and_recover 5000019 controller).2 ≡ []
unfolding run step init pause trigger_circuit_breaker check_and_recover
recovers_test = refl

recovers_due_test : (check_and_recover 5000020 controller).2 ≡ high_gas ∷ []
unfolding run step init pause trigger_circuit_breaker check_and_recover resolve_circuit_breaker
    has_active_breakers resolve_one
recovers_due_test = refl

run-IsConsistent_example : IsConsistent (run (init "secret" 60) history)
run-IsConsistent_example = run-IsConsistent "secret" 60 history

is_paused : controller.paused ≡ true
unfolding run step init pause trigger_circuit_breaker
is_paused = refl

is_resumed : (step controller (40, resumes "secret")).paused ≡ false
unfolding run step init pause trigger_circuit_breaker resume
is_resumed = refl

exit_ne_all : exit ≢ all
exit_ne_all = ground arith

entry_ne_exit : entry ≢ exit
entry_ne_exit = ground arith

has_key : "secret" ≡ controller.admin_api_key
unfolding run step init pause trigger_circuit_breaker
has_key = refl

depeg_ne_manual : lst_depeg ≢ manual
depeg_ne_manual = ground arith
