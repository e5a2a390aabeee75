-- ===== src/Pause/Scopes.antt =====
-- Which operations a pause stops: `check_paused`, `assert_not_paused` and `can_execute`.
use asgard_hl_basisstrategy.Base.{
  ℕ, String, ◌≡◌, ◌≢◌, refl, Bool, true, Option, some, ◌&&◌, ◌++◌, List, [], ◌∷◌, any, not,
  str-eq_iff, ok, arith, ◌↔◌,
}
use asgard_hl_basisstrategy.Pause.{
  PauseController, PauseScope, CircuitBreakerType, CircuitBreakerEvent, all, entry, exit, asgard,
  hyperliquid, manual, type_eq, scope_eq, is_active, pause, check_paused, assert_not_paused,
  can_execute, manual_breaker,
}
use asgard_hl_basisstrategy.Pause.Breakers.{trigger_circuit_breaker}

-- The operation that a scope is about; no operation is called "all".
abbrev pub operation : PauseScope → String
operation entry = "entry"
operation exit = "exit"
operation asgard = "asgard"
operation hyperliquid = "hyperliquid"
operation all = "all"

-- At each of the four operations that have a scope, and at an unknown one, which ALL alone stops,
-- `can_execute` answers the opposite of `check_paused`, and `assert_not_paused` passes exactly when
-- `can_execute` allows.
pub can_execute-check_paused :
    (s : PauseScope) (c : PauseController)
    → (can_execute (operation s) c ≡ not (check_paused (some s) c))
      × ((assert_not_paused (some s) c ≡ ok tt) ↔ (can_execute (operation s) c ≡ true))
unfolding can_execute check_paused assert_not_paused
can_execute-check_paused entry c = ground arith
can_execute-check_paused exit c = ground arith
can_execute-check_paused asgard c = ground arith
can_execute-check_paused hyperliquid c = ground arith
can_execute-check_paused all c = ground arith

-- An active breaker that an admin raised over everything.
abbrev pub stops_all : CircuitBreakerEvent → Bool
stops_all b = type_eq b.breaker_type manual && is_active b && scope_eq b.scope all

any_first :
    (bs cs : List CircuitBreakerEvent) (b : CircuitBreakerEvent)
    → stops_all b ≡ true
    → any stops_all ((bs ++ b ∷ []) ++ cs) ≡ true
any_first [] cs b h = ground arith
any_first (x ∷ bs) cs b h = ground (arith, any_first bs cs b h)

can_execute-trigger :
    (s u : PauseScope) (t : CircuitBreakerType) (why : String) (auto : Bool) (cooldown : Option ℕ)
    (now : ℕ) (c : PauseController)
    → s ≢ all
    → u ≢ s
    → can_execute (operation u) (trigger_circuit_breaker t why s auto cooldown now c).0 ≡ true
unfolding can_execute trigger_circuit_breaker
can_execute-trigger s entry t why auto cooldown now c ns nu = ground arith
can_execute-trigger s exit t why auto cooldown now c ns nu = ground arith
can_execute-trigger s asgard t why auto cooldown now c ns nu = ground arith
can_execute-trigger s hyperliquid t why auto cooldown now c ns nu = ground arith
can_execute-trigger s all t why auto cooldown now c ns nu = ground arith

breakers-pause :
    (key reason : String) (now : ℕ) (c : PauseController)
    → key ≡ c.admin_api_key
    → (pause key reason all now c).0.circuit_breakers
      ≡ c.circuit_breakers ++ manual_breaker reason all now ∷ []
unfolding pause
breakers-pause key reason now c e = ground (arith, str-eq_iff key c.admin_api_key)

-- After an admin has paused everything, a circuit breaker with a narrower scope replaces the scope
-- of the pause: every operation but that scope's own is allowed again, although the admin's breaker
-- over everything is still active.
pub trigger_circuit_breaker_narrows :
    (c : PauseController) (key reason why : String) (t : CircuitBreakerType) (s u : PauseScope)
    (auto : Bool) (cooldown : Option ℕ) (now later : ℕ)
    → key ≡ c.admin_api_key
    → s ≢ all
    → u ≢ s
    → let c' =
        (trigger_circuit_breaker t why s auto cooldown later (pause key reason all now c).0).0 in
      (can_execute (operation u) c' ≡ true) × (any stops_all c'.circuit_breakers ≡ true)
unfolding trigger_circuit_breaker
trigger_circuit_breaker_narrows c key reason why t s u auto cooldown now later e ns nu = (
  can_execute-trigger s u t why auto cooldown later (pause key reason all now c).0 ns nu,
  rw (breakers-pause key reason now c e)
      (any_first c.circuit_breakers _ (manual_breaker reason all now) refl),
)
