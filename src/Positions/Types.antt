-- ===== src/Positions/Types.antt =====
-- The data of bot/core/position_manager.py, and of shared/models and the venues as far as it reads
-- them. What an exchange returns or raises is an argument, `Venues`; which requests the code makes,
-- in which order, is the list of `VenueCall`s. A price that a venue gives as text or float enters as
-- the number that `Decimal(str(...))` makes of it, with `none` for a missing or an empty text.
use asgard_hl_basisstrategy.Base.{ℕ, String, Bool, Option, List, Numbers, Result}

-- `CombinedPosition.status`
pub data Status : Type 0 where
  opened closing closed stuck : Status

pub data ExitReason : Type 0 where
  funding_flip health_factor margin_fraction price_deviation lst_depeg manual chain_outage :
      ExitReason
  stop_loss target_profit negative_apy delta_drift : ExitReason

module _ (N : Numbers) where
  open N use {Number, add, div, literal}

  pub record AsgardPosition : Type 0 where
    pub position_pda : String
    pub position_size_usd : Number
    pub token_a_amount : Number
    pub entry_price_token_a : Number
    pub current_health_factor : Number
    pub current_token_a_price : Number

  pub record HyperliquidPosition : Type 0 where
    pub coin : String
    pub size_sol : Number
    pub entry_px : Number
    pub leverage : Number
    pub margin_used : Number
    pub margin_fraction : Number
    pub account_value : Number
    pub mark_px : Number

  pub record PositionReference : Type 0 where
    pub asgard_entry_price : Number
    pub hyperliquid_entry_price : Number
    pub max_acceptable_deviation : Number

  pub record CombinedPosition : Type 0 where
    pub position_id : String
    pub asgard : AsgardPosition
    pub hyperliquid : HyperliquidPosition
    pub reference : PositionReference
    pub opportunity_id : String
    pub status : Status
    pub exit_reason : Option ExitReason
    pub exit_time : Option ℕ

  pub record ConsensusResult : Type 0 where
    pub asgard_price : Number
    pub hyperliquid_price : Number

  -- The property `consensus_price`.
  unfoldable pub consensus_price : ConsensusResult → Number
  consensus_price c = div (add c.asgard_price c.hyperliquid_price) (literal 2 0)

  pub record ArbitrageOpportunity : Type 0 where
    pub id : String
    pub deployed_capital_usd : Number
    pub position_size_usd : Number
    pub leverage : Number
    pub total_expected_apy : Number
    pub preflight_checks_passed : Bool

  pub record OpenPositionResult : Type 0 where
    pub success : Bool
    pub position : Option AsgardPosition
    pub error : Option String

  pub record ClosePositionResult : Type 0 where
    pub success : Bool
    pub error : Option String

  pub record OrderResult : Type 0 where
    pub success : Bool
    pub order_id : Option String
    pub avg_px : Option Number
    pub error : Option String

  pub record PositionInfo : Type 0 where
    pub entry_px : Number
    pub margin_used : Number
    pub margin_fraction : Number

  -- The local dataclass of `_open_hyperliquid_position`.
  pub record HyperliquidOpenResult : Type 0 where
    pub success : Bool
    pub order_id : Option String
    pub avg_px : Option Number
    pub position_info : Option HyperliquidPosition
    pub error : Option String

  -- The local dataclasses of the two methods that close a leg.
  pub record CloseResult : Type 0 where
    pub success : Bool
    pub error : Option String

  -- What the venues answer to the requests of one method call.
  pub record Venues : Type 0 where
    pub consensus : Result ConsensusResult
    pub open_long : Result OpenPositionResult
    pub update_leverage : Result (Unit {0})
    pub open_short : Result OrderResult
    pub get_position : Result (Option PositionInfo)
    pub close_short : Result OrderResult
    pub close_long : Result ClosePositionResult

  pub data VenueCall : Type 0 where
    checks_consensus : VenueCall
    opens_long : Number → Number → VenueCall
    updates_leverage : String → Number → VenueCall
    opens_short : String → Number → VenueCall
    gets_position : String → VenueCall
    closes_short : String → Number → VenueCall
    closes_long : String → VenueCall

  pub record PositionManagerResult : Type 0 where
    pub success : Bool
    pub position : Option CombinedPosition
    pub error : Option String
    pub stage : Option String

  -- `OpenPositionContext`, as far as a position's own data do not repeat it.
  pub record OpenPositionContext : Type 0 where
    pub opportunity : ArbitrageOpportunity
    pub consensus_result : ConsensusResult
    pub entry_time : ℕ
    pub asgard_collateral_usd : Number
    pub hyperliquid_size_sol : Number
    pub leverage : Number

  -- `fill_limit` is the `max_deviation` of its fill validator.
  pub record PositionManager : Type 0 where
    pub positions : List (String × CombinedPosition)
    pub contexts : List (String × OpenPositionContext)
    pub fill_limit : Number
