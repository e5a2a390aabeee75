-- ===== src/Pause.antt =====
-- bot/core/pause_controller.py: class PauseController. A method takes the time that its reads of
-- the clock return, and gives the new controller, the callbacks it ran, in order, and its result.
-- A callback is a number: what it does is not in this class, and its exceptions are swallowed.
pub mod Types
pub mod Breakers
pub mod Calls
pub mod Resolve
pub mod Invariant
pub mod Scopes
pub mod Recovery
pub mod Users
pub use Types.*
use Prim.Native.String.{◌++◌ as str_append}
use asgard_hl_basisstrategy.Base.{
  ℕ, zero, suc, ◌+◌, ◌*◌, String, Bool, true, false, ◌&&◌, Option, none, some, List, [], ◌∷◌, ◌++◌,
  map, length, get_elem?, filter, any, not, is_some, or_else, leb, ltb, str_eq, if◌then◌else◌,
  Error, value_error, runtime_error, Result, ok, raises,
}

pub record PauseController : Type 0 where
  pub admin_api_key : String
  pub default_cooldown : ℕ
  pub paused : Bool
  pub pause_scope : PauseScope
  pub pause_reason : Option String
  pub paused_at : Option ℕ
  pub paused_by : Option String
  pub circuit_breakers : List CircuitBreakerEvent
  pub pause_callbacks : List ℕ
  pub resume_callbacks : List ℕ

-- One callback that was run, with what it was given.
pub data Notice : Type 0 where
  on_pause : ℕ → PauseState → Notice
  on_resume : ℕ → Notice

abbrev pub type_value : CircuitBreakerType → String
type_value asgard_health = "asgard_health"
type_value hyperliquid_margin = "hyperliquid_margin"
type_value negative_apy = "negative_apy"
type_value price_deviation = "price_deviation"
type_value lst_depeg = "lst_depeg"
type_value high_gas = "high_gas"
type_value chain_outage = "chain_outage"
type_value manual = "manual"

abbrev pub scope_value : PauseScope → String
scope_value all = "all"
scope_value entry = "entry"
scope_value exit = "exit"
scope_value asgard = "asgard"
scope_value hyperliquid = "hyperliquid"

-- `DEFAULT_COOLDOWNS.get`, in seconds: the table has every type.
abbrev pub default_cooldowns : CircuitBreakerType → Option ℕ
default_cooldowns price_deviation = some 1800
default_cooldowns _ = some 0

-- `PauseController(admin_api_key, default_cooldown_seconds)`
unfoldable pub init : String → ℕ → PauseController
init key cooldown = record {
  admin_api_key = key;
  default_cooldown = cooldown;
  paused = false;
  pause_scope = all;
  pause_reason = none;
  paused_at = none;
  paused_by = none;
  circuit_breakers = [];
  pause_callbacks = [];
  resume_callbacks = [];
}

unfoldable pub get_active_breakers : PauseController → List CircuitBreakerEvent
get_active_breakers c = filter is_active c.circuit_breakers

unfoldable pub has_active_breakers : PauseController → Bool
has_active_breakers c = any is_active c.circuit_breakers

unfoldable pub get_pause_state : PauseController → PauseState
unfolding get_active_breakers
get_pause_state c = record {
  paused = c.paused;
  scope = c.pause_scope;
  reason = c.pause_reason;
  paused_at = c.paused_at;
  paused_by = c.paused_by;
  active_breakers = map (λ b. b.breaker_type) (get_active_breakers c);
}

-- The loops over the callbacks.
unfoldable pub run_pause_callbacks : PauseController → List Notice
unfolding get_pause_state
run_pause_callbacks c = map (λ callback. on_pause callback (get_pause_state c)) c.pause_callbacks

unfoldable pub run_resume_callbacks : PauseController → List Notice
run_resume_callbacks c = map on_resume c.resume_callbacks

-- The event that `pause` records.
abbrev pub manual_breaker : String → PauseScope → ℕ → CircuitBreakerEvent
manual_breaker reason scope now = record {
  breaker_type = manual;
  triggered_at = now;
  reason = reason;
  scope = scope;
  auto_recovery = false;
  recovery_time = none;
  cooldown_seconds = none;
  resolved_at = none;
  resolved_by = none;
}

unfoldable pub pause :
    String → String → PauseScope → ℕ → PauseController → PauseController × List Notice × Result Bool
pause key reason scope now c =
    let c' = record c {
      paused = true;
      pause_scope = scope;
      pause_reason = some reason;
      paused_at = some now;
      paused_by = some "admin";
      circuit_breakers = c.circuit_breakers ++ manual_breaker reason scope now ∷ [];
    } in
    if str_eq key c.admin_api_key
    then (c', run_pause_callbacks c', ok true)
    else (c, [], raises (value_error "Invalid API key"))

-- The body of the loops that resolve the active breakers of one type.
unfoldable pub resolve_one :
    CircuitBreakerType → String → ℕ → CircuitBreakerEvent → CircuitBreakerEvent
resolve_one t by now b =
    if type_eq b.breaker_type t && is_active b
    then record b { resolved_at = some now; resolved_by = some by }
    else b

unfoldable pub resume : String → ℕ → PauseController → PauseController × List Notice × Result Bool
resume key now c =
    let c' = record c {
      paused = false;
      pause_scope = all;
      pause_reason = none;
      paused_at = none;
      paused_by = none;
      circuit_breakers = map (resolve_one manual "manual" now) c.circuit_breakers;
    } in
    if str_eq key c.admin_api_key
    then (c', if c.paused then run_resume_callbacks c' else [], ok true)
    else (c, [], raises (value_error "Invalid API key"))

unfoldable pub check_paused : Option PauseScope → PauseController → Bool
check_paused none c = c.paused
check_paused (some scope) c =
    if not c.paused
    then false
    else if scope_eq c.pause_scope all
    then true
    else scope_eq scope c.pause_scope

-- `f"{self._pause_reason}"` prints `None` for a missing reason.
abbrev pub show_reason : Option String → String
show_reason none = "None"
show_reason (some r) = r

unfoldable pub assert_not_paused : Option PauseScope → PauseController → Result (Unit {0})
assert_not_paused scope c =
    if check_paused scope c
    then raises (
        runtime_error (
          str_append "Operations paused (" (
            str_append (scope_value c.pause_scope)
              (str_append "): " (show_reason c.pause_reason)))))
    else ok tt

-- `scope_map.get(operation, [PauseScope.ALL])`
abbrev pub blocked_scopes : String → List PauseScope
blocked_scopes operation =
    if str_eq operation "entry"
    then all ∷ entry ∷ []
    else if str_eq operation "exit"
    then all ∷ exit ∷ []
    else if str_eq operation "asgard"
    then all ∷ asgard ∷ []
    else if str_eq operation "hyperliquid"
    then all ∷ hyperliquid ∷ []
    else all ∷ []

unfoldable pub can_execute : String → PauseController → Bool
can_execute operation c =
    if not c.paused
    then true
    else not (any (λ s. scope_eq c.pause_scope s) (blocked_scopes operation))

-- `CircuitBreakerType` members are truthy, so `if breaker_type` tests for `None`.
unfoldable pub get_circuit_breaker_history :
    Option CircuitBreakerType → PauseController → List CircuitBreakerEvent
get_circuit_breaker_history none c = c.circuit_breakers
get_circuit_breaker_history (some t) c = filter (λ b. type_eq b.breaker_type t) c.circuit_breakers

unfoldable pub add_pause_callback : ℕ → PauseController → PauseController
add_pause_callback k c = record c { pause_callbacks = c.pause_callbacks ++ k ∷ [] }

unfoldable pub add_resume_callback : ℕ → PauseController → PauseController
add_resume_callback k c = record c { resume_callbacks = c.resume_callbacks ++ k ∷ [] }
