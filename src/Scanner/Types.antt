-- ===== src/Scanner/Types.antt =====
-- The rows that the autonomous scanner reads, and what it meets.
use asgard_hl_basisstrategy.Base.{ℕ, String, Bool, Option, List, Numbers, Result}
use asgard_hl_basisstrategy.Positions.Types.{Venues}
use asgard_hl_basisstrategy.Pause.Users.{Users}
use asgard_hl_basisstrategy.Monitor.Types.{FundingRate, PositionRow}
use asgard_hl_basisstrategy.UserRisk

-- SYSTEM_MIN_COOLDOWN_MINUTES and SYSTEM_MAX_POSITIONS of shared/config/strategy_defaults.py.
abbrev pub system_min_cooldown_minutes : ℕ
system_min_cooldown_minutes = 5

abbrev pub system_max_positions : ℕ
system_max_positions = 3

module _ (N : Numbers) where
  open N use {Number, literal}

  -- SYSTEM_MIN_POSITION_USD and SYSTEM_MAX_POSITION_USD
  abbrev pub system_min_position_usd : Number
  system_min_position_usd = literal 100 0

  abbrev pub system_max_position_usd : Number
  system_max_position_usd = literal 50000 0

  -- A row of user_strategy_config, none of whose thresholds is NULL. Its pause is the entry of the
  -- user risk manager's table. Times are microseconds.
  pub record ConfigRow : Type 0 where
    pub enabled : Bool
    pub min_carry_apy : Number
    pub min_funding_rate_8hr : Number
    pub max_funding_volatility : Number
    pub max_position_pct : Number
    pub max_concurrent_positions : ℕ
    pub max_leverage : Number
    pub cooldown_minutes : ℕ
    pub last_close_time : Option ℕ
    pub cooldown_at_close : Option ℕ
    pub assets : List String

  pub record ScannerDatabase : Type 0 where
    pub user_strategy_config : List (String × ConfigRow)
    pub users : Users
    pub positions : List (String × PositionRow N)
    pub risk : UserRisk.Database N

  pub record MarketData : Type 0 where
    pub funding_rates : List (String × FundingRate N)
    pub volatilities : List (String × Number)

  -- What the scanner meets with one user: whether the advisory lock is got, the clock, the balance,
  -- whether the trading context is made again and entered, what the venues answer when a position
  -- is opened, and the ids that the opportunity and the position get.
  pub record World : Type 0 where
    pub locked : Bool
    pub today : ℕ
    pub now : ℕ
    pub balance : Result Number
    pub context : Result (Unit {0})
    pub venues : Venues N
    pub opportunity_id : String
    pub position_id : String
