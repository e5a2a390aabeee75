-- ===== src/Pause/Types.antt =====
-- The enums and dataclasses of bot/core/pause_controller.py. Times are microseconds since an epoch.
use asgard_hl_basisstrategy.Base.{ℕ, String, Bool, true, false, Option, List, is_some, not}

pub data CircuitBreakerType : Type 0 where
  asgard_health hyperliquid_margin negative_apy price_deviation : CircuitBreakerType
  lst_depeg high_gas chain_outage manual : CircuitBreakerType

-- `breaker.breaker_type == breaker_type`
abbrev pub CircuitBreakerType-discrete : Discrete CircuitBreakerType
CircuitBreakerType-discrete = hlevel

abbrev pub type_eq : CircuitBreakerType → CircuitBreakerType → Bool
type_eq a b = elim (CircuitBreakerType-discrete a b) [ yes h ↦ true | no h ↦ false ]

pub data PauseScope : Type 0 where
  all entry exit asgard hyperliquid : PauseScope

abbrev pub PauseScope-discrete : Discrete PauseScope
PauseScope-discrete = hlevel

abbrev pub scope_eq : PauseScope → PauseScope → Bool
scope_eq a b = elim (PauseScope-discrete a b) [ yes h ↦ true | no h ↦ false ]

pub record CircuitBreakerEvent : Type 0 where
  pub breaker_type : CircuitBreakerType
  pub triggered_at : ℕ
  pub reason : String
  pub scope : PauseScope
  pub auto_recovery : Bool
  pub recovery_time : Option ℕ
  pub cooldown_seconds : Option ℕ
  pub resolved_at : Option ℕ
  pub resolved_by : Option String

-- The property `is_active`.
abbrev pub is_active : CircuitBreakerEvent → Bool
is_active b = not (is_some b.resolved_at)

pub record PauseState : Type 0 where
  pub paused : Bool
  pub scope : PauseScope
  pub reason : Option String
  pub paused_at : Option ℕ
  pub paused_by : Option String
  pub active_breakers : List CircuitBreakerType
