-- ===== src/Pause/Invariant.antt =====
-- What holds of a PauseController between two calls, and which calls can end a pause.
use asgard_hl_basisstrategy.Base.{
  ◌&&◌, ◌||◌, not, ℕ, zero, suc, ◌+◌, String, ◌≡◌, refl, inl, inr, true, false, List, [], ◌∷◌, ◌++◌,
  any, get_elem?, length, is_some, str-eq_iff, arith, Bool-cases, Option-cases,
}
use asgard_hl_basisstrategy.Pause.{
  scope_eq, PauseController, CircuitBreakerEvent, CircuitBreakerType, all, is_active, init,
  manual_breaker, pause, resume, has_active_breakers, add_pause_callback, add_resume_callback,
}
use asgard_hl_basisstrategy.Pause.Breakers.{
  is_due, trigger_circuit_breaker, resolve_circuit_breaker, recover_loop, check_and_recover,
}
use asgard_hl_basisstrategy.Pause.Resolve.{matches, map-resolve_one_none}
use asgard_hl_basisstrategy.Pause.Calls.{
  Call, pauses, resumes, triggers, resolves, recovers, adds_pause_callback, adds_resume_callback,
  step, run,
}

pub record IsConsistent (c : PauseController) : Type 0 where
  -- A pause always has an active breaker that explains it.
  pub explained : (not c.paused || any is_active c.circuit_breakers) ≡ true
  pub reasoned : (not c.paused || is_some c.pause_reason) ≡ true
  pub reset : (c.paused || (scope_eq c.pause_scope all && not (is_some c.pause_reason))) ≡ true

init-IsConsistent : (key : String) (cooldown : ℕ) → IsConsistent (init key cooldown)
unfolding init
init-IsConsistent key cooldown = ground arith

any_last :
    (bs : List CircuitBreakerEvent) (b : CircuitBreakerEvent)
    → is_active b ≡ true
    → any is_active (bs ++ b ∷ []) ≡ true
any_last [] b h = ground arith
any_last (x ∷ bs) b h = ground (arith, any_last bs b h)

pub resolve_circuit_breaker-IsConsistent :
    (t : CircuitBreakerType) (by : String) (now : ℕ) (c : PauseController)
    → IsConsistent c
    → IsConsistent (resolve_circuit_breaker t by now c).0
unfolding resolve_circuit_breaker has_active_breakers
resolve_circuit_breaker-IsConsistent t by now c v =
    elim (Bool-cases (any (matches t) c.circuit_breakers)) [
      | inl e ↦ ground arith
      | inr e ↦ ground (arith, map-resolve_one_none t by now c.circuit_breakers e)
    ]

recover_loop-IsConsistent :
    (now n i : ℕ) (c : PauseController) → IsConsistent c → IsConsistent (recover_loop now n i c).0
unfolding recover_loop
recover_loop-IsConsistent now zero i c v = v
recover_loop-IsConsistent now (suc n) i c v = elim (Option-cases (get_elem? c.circuit_breakers i)) [
  | inl e ↦ rw (e, recover_loop) v
  | inr (b, e) ↦ elim (Bool-cases (is_due now b)) [
    | inl due ↦
        rw (e, recover_loop)
          (rw due (
            recover_loop-IsConsistent now n (i + 1) _
              (resolve_circuit_breaker-IsConsistent b.breaker_type "auto" now c v)))
    | inr waiting ↦ rw (e, recover_loop) (rw waiting (recover_loop-IsConsistent now n (i + 1) c v))
  ]
]

-- Every call, at any time and whether it succeeds or raises, keeps the controller consistent.
pub step-IsConsistent :
    (c : PauseController) (call : ℕ × Call) → IsConsistent c → IsConsistent (step c call)
unfolding step pause resume trigger_circuit_breaker check_and_recover add_pause_callback
    add_resume_callback
step-IsConsistent c (now, pauses key reason scope) v =
    ground (arith, any_last c.circuit_breakers (manual_breaker reason scope now))
step-IsConsistent c (now, resumes key) v = ground arith
step-IsConsistent c (now, triggers t reason scope auto cooldown) v = record {
  explained = any_last c.circuit_breakers _ refl;
  reasoned = refl;
  reset = refl;
}
step-IsConsistent c (now, resolves t by) v = resolve_circuit_breaker-IsConsistent t by now c v
step-IsConsistent c (now, recovers) v =
    recover_loop-IsConsistent now (length c.circuit_breakers) 0 c v
step-IsConsistent c (now, adds_pause_callback k) v = ground arith
step-IsConsistent c (now, adds_resume_callback k) v = ground arith

run_from-IsConsistent :
    (c : PauseController) (calls : List (ℕ × Call)) → IsConsistent c → IsConsistent (run c calls)
unfolding run
run_from-IsConsistent c [] v = v
run_from-IsConsistent c (call ∷ calls) v =
    run_from-IsConsistent (step c call) calls (step-IsConsistent c call v)

-- After any history of calls on a new controller: while it is paused, some circuit breaker is
-- active and a reason is recorded; while it is not, its scope is ALL and it has no reason.
pub run-IsConsistent :
    (key : String) (cooldown : ℕ) (calls : List (ℕ × Call))
    → IsConsistent (run (init key cooldown) calls)
run-IsConsistent key cooldown calls =
    run_from-IsConsistent (init key cooldown) calls (init-IsConsistent key cooldown)

-- The calls that may end a pause.
abbrev pub MayEnd : PauseController → Call → Type 0
MayEnd c (resumes key) = key ≡ c.admin_api_key
MayEnd c (resolves t by) = any (matches t) c.circuit_breakers ≡ true
MayEnd c recovers = Unit {0}
MayEnd c _ = ⊥

-- A call that turns a paused controller into one that is not paused is a resume with the admin
-- key, a resolution of a type that has an active breaker, or a recovery check.
pub step_unpauses :
    (c : PauseController) (now : ℕ) (call : Call)
    → c.paused ≡ true
    → (step c (now, call)).paused ≡ false
    → MayEnd c call
unfolding step pause resume trigger_circuit_breaker resolve_circuit_breaker add_pause_callback
    add_resume_callback
step_unpauses c now (pauses key reason scope) p q = ground arith
step_unpauses c now (resumes key) p q = ground (arith, str-eq_iff key c.admin_api_key)
step_unpauses c now (triggers t reason scope auto cooldown) p q = ground arith
step_unpauses c now (resolves t by) p q = ground arith
step_unpauses c now recovers p q = tt
step_unpauses c now (adds_pause_callback k) p q = ground arith
step_unpauses c now (adds_resume_callback k) p q = ground arith
