-- ===== src/Monitor/Types.antt =====
-- The data of bot/core/position_monitor.py: rows, what it reads of the venues, and exit decisions.
use asgard_hl_basisstrategy.Base.{
  ℕ, String, Bool, true, not, Option, none, some, List, Numbers, zero_number, Result, ok, raises,
  exception, str_eq, if◌then◌else◌,
}
use asgard_hl_basisstrategy.Positions.Types.{ExitReason}
use asgard_hl_basisstrategy.UserRisk

-- A text that is a true value, or none.
abbrev pub non_empty : Option String → Option String
non_empty none = none
non_empty (some s) = if str_eq s "" then none else some s

-- A text of a time: `isoformat()` of a time, or one of another form.
pub data TimeText : Type 0 where
  iso : ℕ → TimeText
  other_text : String → TimeText

module _ (N : Numbers) where
  open N use {Number, mul, abs, eq, literal}

  -- FundingRate of bot/venues/hyperliquid/funding_oracle.py, whose rate is hourly.
  pub record FundingRate : Type 0 where
    pub coin : String
    pub funding_rate : Number
    pub timestamp_ms : ℕ
    pub annualized_rate : Number

  -- The property `rate_8hr`.
  abbrev pub rate_8hr : FundingRate → Number
  rate_8hr r = mul r.funding_rate (literal 8 0)

  -- A funding rate as the code may meet it: a dict with or without the key "funding", a number, or
  -- the oracle's object.
  pub data Funding : Type 0 where
    mapping : Option Number → Funding
    plain : Number → Funding
    rate_object : FundingRate → Funding

  -- `current_funding.get("funding", 0) if isinstance(current_funding, dict) else current_funding`
  pub data FundingValue : Type 0 where
    number : Number → FundingValue
    object : FundingRate → FundingValue

  abbrev pub funding_value : Funding → FundingValue
  funding_value (mapping none) = number (zero_number N)
  funding_value (mapping (some x)) = number x
  funding_value (plain x) = number x
  funding_value (rate_object r) = object r

  -- `bool(value)` and `float(value)`: an object of a dataclass is true, and is no number.
  abbrev pub is_true : FundingValue → Bool
  is_true (number x) = not (eq x (zero_number N))
  is_true (object r) = true

  abbrev pub to_float : FundingValue → Result Number
  to_float (number x) = ok x
  to_float (object r) = raises (exception "float() argument must be a string or a real number")

  -- A size as a JSON text, by the number that `float` makes of it, or as a JSON number.
  pub data Size : Type 0 where
    text_size : Number → Size
    number_size : Number → Size

  -- The sizes that are a true value, as `abs(float(size))`.
  abbrev pub size_to_close : Option Size → Option Number
  size_to_close none = none
  size_to_close (some (text_size x)) = some (abs x)
  size_to_close (some (number_size x)) = if eq x (zero_number N) then none else some (abs x)

  -- The numbers of `ExitDecision.details`, before they are rounded.
  pub data Details : Type 0 where
    health_details margin_details flip_details : Number → Details
    stop_loss_details take_profit_details : Number → Number → Details
    carry_details : Number → Number → Number → Details

  -- An `ExitDecision` that exits.
  pub record ExitDecision : Type 0 where
    pub reason : ExitReason
    pub details : Details

  -- The column `data` of a position. Where "created_at" is written, it is a text.
  pub record PositionData : Type 0 where
    pub asset : Option String
    pub leverage : Option Number
    pub size_usd : Option Number
    pub deployed_capital_usd : Option Number
    pub total_pnl : Option Number
    pub funding_earned : Option Number
    pub asgard_pda : Option String
    pub hyperliquid_size : Option Size
    pub hl_size : Option Size
    pub hl_unrealized_pnl : Option Number
    pub hl_margin_fraction : Option Number
    pub hl_liquidation_px : Option Number
    pub asgard_health_factor : Option Number
    pub current_funding_rate : Option Number
    pub created_at : Option TimeText
    pub closed_at : Option ℕ
    pub exit : Option ExitDecision

  pub record PositionRow : Type 0 where
    pub user_id : String
    pub data_of : PositionData
    pub is_closed : Bool

  pub record HistoryRow : Type 0 where
    pub user_id : String
    pub asset : String
    pub opened_at : ℕ
    pub pnl_usd : Number
    pub funding_earned_usd : Number

  -- The columns of user_strategy_config that the monitor touches.
  pub record StrategyRow : Type 0 where
    pub stop_loss_pct : Option Number
    pub take_profit_pct : Option Number
    pub min_exit_carry_apy : Option Number
    pub cooldown_minutes : ℕ
    pub last_close_time : Option ℕ
    pub cooldown_at_close : Option ℕ

  pub record MonitorDatabase : Type 0 where
    pub positions : List (String × PositionRow)
    pub position_history : List (String × HistoryRow)
    pub user_strategy_config : List (String × StrategyRow)
    pub risk : UserRisk.Database N

  -- PositionInfo of bot/venues/hyperliquid/trader.py, as far as the monitor reads it.
  pub record PositionInfo : Type 0 where
    pub unrealized_pnl : Number
    pub margin_fraction : Number
    pub liquidation_px : Option Number

  pub record CloseAnswer : Type 0 where
    pub success : Bool
    pub error : Option String

  -- What is met in the check of one position: what the venues answer, where the health factor is
  -- missing when the status is, and what asyncpg makes of a text for a column of type TIMESTAMP.
  pub record Answers : Type 0 where
    pub get_position : Result (Option PositionInfo)
    pub monitor_health : Result (Option Number)
    pub close_short : Result CloseAnswer
    pub close_position : Result CloseAnswer
    pub bind_timestamp : TimeText → Result ℕ

  -- The requests that trade.
  pub data Request : Type 0 where
    closes_short : String → Number → Request
    closes_position : String → Request
