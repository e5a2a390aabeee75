-- ===== src/Pause/Calls.antt =====
-- The calls that a PauseController receives, and histories of them.
use asgard_hl_basisstrategy.Base.{ℕ, String, Bool, Option, List, [], ◌∷◌}
use asgard_hl_basisstrategy.Pause.{
  PauseController, CircuitBreakerType, PauseScope, pause, resume, add_pause_callback,
  add_resume_callback,
}
use asgard_hl_basisstrategy.Pause.Breakers.{
  trigger_circuit_breaker, resolve_circuit_breaker, check_and_recover,
}

pub data Call : Type 0 where
  pauses : String → String → PauseScope → Call
  resumes : String → Call
  triggers : CircuitBreakerType → String → PauseScope → Bool → Option ℕ → Call
  resolves : CircuitBreakerType → String → Call
  recovers : Call
  adds_pause_callback adds_resume_callback : ℕ → Call

-- The controller after a call at a time, whatever the call returned or raised.
unfoldable pub step : PauseController → ℕ × Call → PauseController
step c (now, pauses key reason scope) = (pause key reason scope now c).0
step c (now, resumes key) = (resume key now c).0
step c (now, triggers t reason scope auto cooldown) =
    (trigger_circuit_breaker t reason scope auto cooldown now c).0
step c (now, resolves t by) = (resolve_circuit_breaker t by now c).0
step c (now, recovers) = (check_and_recover now c).0
step c (now, adds_pause_callback k) = add_pause_callback k c
step c (now, adds_resume_callback k) = add_resume_callback k c

unfoldable pub run : PauseController → List (ℕ × Call) → PauseController
run c [] = c
run c (call ∷ calls) = run (step c call) calls
