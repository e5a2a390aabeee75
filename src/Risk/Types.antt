-- ===== src/Risk/Types.antt =====
-- The data of bot/core/risk_engine.py. Times are microseconds. The attributes of a position that the
-- engine reads but that the classes of shared/models/position.py do not have, `health_factor` and
-- `position_id` of a leg, are optional here: `none` is an object without the attribute.
use asgard_hl_basisstrategy.Base.{ℕ, String, Bool, true, false, ◌||◌, Option, List, Numbers}
use asgard_hl_basisstrategy.Positions.Types.{ExitReason}

pub data RiskLevel : Type 0 where
  normal warning critical : RiskLevel

abbrev pub is_critical : RiskLevel → Bool
is_critical critical = true
is_critical _ = false

-- `_level_order`
abbrev pub level_order : RiskLevel → ℕ
level_order normal = 0
level_order warning = 1
level_order critical = 2

module _ (N : Numbers) where
  open N use {Number}

  -- The two legs as the engine sees them.
  pub record AsgardLeg : Type 0 where
    pub position_pda : String
    pub position_size_usd : Number
    pub health_factor : Option Number

  pub record HyperliquidLeg : Type 0 where
    pub margin_fraction : Number
    pub position_id : Option String

  -- `HealthCheckResult` and `MarginCheckResult`, whose fields differ in name only: `value` is the
  -- health factor or the margin fraction, and `distance` the distance to liquidation or threshold.
  pub record CheckResult : Type 0 where
    pub level : RiskLevel
    pub value : Number
    pub threshold : Number
    pub distance : Number
    pub in_proximity : Bool
    pub proximity_start_time : Option ℕ

  -- The property `should_close` of both.
  abbrev pub should_close : CheckResult → Bool
  should_close r = is_critical r.level || r.in_proximity

  pub record FundingFlipCheck : Type 0 where
    pub flipped : Bool
    pub current_funding_annual : Number
    pub predicted_funding_annual : Number
    pub was_shorts_paid : Bool
    pub now_longs_paid : Bool

  -- `details` repeats arguments for logging and is left out.
  pub record ExitDecision : Type 0 where
    pub should_exit : Bool
    pub reason : Option ExitReason
    pub level : RiskLevel
    pub timestamp : ℕ
    pub estimated_close_cost : Option Number
    pub expected_loss_if_held : Option Number

  pub record DeltaDriftResult : Type 0 where
    pub drift_ratio : Number
    pub threshold : Number
    pub level : RiskLevel
    pub drift_cost : Option Number
    pub rebalance_cost : Option Number
    pub should_rebalance : Bool

  -- The arguments of `evaluate_exit_trigger` besides the position.
  pub record Market : Type 0 where
    pub current_apy : Option Number
    pub estimated_close_cost : Option Number
    pub current_health_factor : Option Number
    pub current_margin_fraction : Option Number
    pub current_funding_annual : Option Number
    pub predicted_funding_annual : Option Number
    pub price_deviation : Option Number
    pub lst_depegged : Bool
    pub chain_outage : Option String

  -- The limits that the configuration gives, and the start of each key's time in proximity.
  pub record RiskEngine : Type 0 where
    pub min_health_factor : Number
    pub emergency_health_factor : Number
    pub critical_health_factor : Number
    pub margin_fraction_threshold : Number
    pub proximity_start_times : List (String × ℕ)
