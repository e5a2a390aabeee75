-- ===== src/Pause/Breakers.antt =====
-- The circuit breakers of a PauseController: triggering, resolution and automatic recovery.
use Prim.Native.String.{◌++◌ as str_append}
use asgard_hl_basisstrategy.Base.{
  ℕ, zero, suc, ◌+◌, ◌*◌, String, Bool, true, false, ◌&&◌, Option, none, some, List, [], ◌∷◌, ◌++◌,
  map, length, get_elem?, any, not, or_else, leb, ltb, if◌then◌else◌,
}
use asgard_hl_basisstrategy.Pause.{
  all, CircuitBreakerEvent, CircuitBreakerType, Notice, PauseController, PauseScope,
  default_cooldowns, has_active_breakers, is_active, resolve_one, run_pause_callbacks,
  run_resume_callbacks, type_eq, type_value,
}

-- Seconds of a `timedelta` on a clock of microseconds.
abbrev pub seconds : ℕ → ℕ
seconds n = n * 1000000

unfoldable pub trigger_circuit_breaker :
    CircuitBreakerType
    → String
    → PauseScope
    → Bool
    → Option ℕ
    → ℕ
    → PauseController
    → PauseController × List Notice × CircuitBreakerEvent
trigger_circuit_breaker t reason scope auto cooldown now c =
    let wait = or_else cooldown (or_else (default_cooldowns t) c.default_cooldown) in
    let event : CircuitBreakerEvent = record {
      breaker_type = t;
      triggered_at = now;
      reason = reason;
      scope = scope;
      auto_recovery = auto;
      recovery_time = if auto && ltb 0 wait then some (now + seconds wait) else none;
      cooldown_seconds = some wait;
      resolved_at = none;
      resolved_by = none;
    } in
    let c' = record c {
      circuit_breakers = c.circuit_breakers ++ event ∷ [];
      paused = true;
      pause_scope = scope;
      pause_reason =
          some
            (str_append "Circuit breaker: " (str_append (type_value t) (str_append " - " reason)));
      paused_at = some now;
      paused_by = some "circuit_breaker";
    } in
    (c', run_pause_callbacks c', event)

unfoldable pub resolve_circuit_breaker :
    CircuitBreakerType → String → ℕ → PauseController → PauseController × List Notice × Bool
resolve_circuit_breaker t by now c =
    let resolved_any = any (λ b. type_eq b.breaker_type t && is_active b) c.circuit_breakers in
    let c' = record c { circuit_breakers = map (resolve_one t by now) c.circuit_breakers } in
    let cleared = record c' { paused = false; pause_scope = all; pause_reason = none } in
    if resolved_any && not (has_active_breakers c')
    then (cleared, run_resume_callbacks cleared, resolved_any)
    else (c', [], resolved_any)

-- `breaker.recovery_time and now >= breaker.recovery_time`
abbrev pub time_reached : Option ℕ → ℕ → Bool
time_reached none now = false
time_reached (some t) now = leb t now

-- The two tests of the loop of `check_and_recover`.
abbrev pub is_due : ℕ → CircuitBreakerEvent → Bool
is_due now b = is_active b && b.auto_recovery && time_reached b.recovery_time now

-- The loop: `n` elements are left from position `i` of the list, which the body changes in place.
unfoldable pub recover_loop :
    ℕ → ℕ → ℕ → PauseController → PauseController × List Notice × List CircuitBreakerType
recover_loop now zero i c = (c, [], [])
recover_loop now (suc n) i c = elim (get_elem? c.circuit_breakers i) [
  | none ↦ (c, [], [])
  | some b ↦ elim (is_due now b) [
    | true ↦
        let (c', notices, _) = resolve_circuit_breaker b.breaker_type "auto" now c in
        let (c'', notices', recovered) = recover_loop now n (i + 1) c' in
        (c'', notices ++ notices', b.breaker_type ∷ recovered)
    | false ↦ recover_loop now n (i + 1) c
  ]
]

unfoldable pub check_and_recover :
    ℕ → PauseController → PauseController × List Notice × List CircuitBreakerType
unfolding recover_loop
check_and_recover now c = recover_loop now (length c.circuit_breakers) 0 c
