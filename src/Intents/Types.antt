-- ===== src/Intents/Types.antt =====
-- The rows of position_intents, the snapshot of the criteria, and what a scan meets.
use asgard_hl_basisstrategy.Base.{
  ℕ, String, Bool, true, false, ◌||◌, Option, List, Numbers, Result, Error,
}
use asgard_hl_basisstrategy.Positions.Types.{Venues}
use asgard_hl_basisstrategy.Monitor.Types.{FundingRate, PositionRow}

pub data Status : Type 0 where
  pending active executed cancelled expired failed : Status

abbrev pub Status-discrete : Discrete Status
Status-discrete = hlevel

abbrev pub status_eq : Status → Status → Bool
status_eq a b = elim (Status-discrete a b) [ yes h ↦ true | no h ↦ false ]

-- `status IN ('pending', 'active')`
abbrev pub is_scannable : Status → Bool
is_scannable s = status_eq s pending || status_eq s active

-- A value of `expires_at`: `_parse_datetime` gives none for one that it cannot read.
pub data Stamp : Type 0 where
  stamp : ℕ → Stamp
  unreadable : Stamp

-- What a failed check says, with the numbers that its text shows.
pub data Reason : Type 0 where
  no_data non_negative above_threshold too_volatile too_expensive no_limit : Reason
  check_error : Error → Reason

module _ (N : Numbers) where
  open N use {Number}

  pub record Check : Type 0 where
    pub passed : Bool
    pub reason : Option Reason
    pub current : Option Number
    pub limit : Option Number

  -- `criteria_snapshot`, without the time of the check.
  pub record Criteria : Type 0 where
    pub all_passed : Bool
    pub checks : List (String × Check)
    pub error : Option Error

  pub record IntentRow : Type 0 where
    pub user_id : String
    pub asset : String
    pub leverage : Number
    pub size_usd : Number
    pub min_funding_rate : Option Number
    pub max_funding_volatility : Option Number
    pub max_entry_price : Option Number
    pub status : Status
    pub position_id : Option String
    pub execution_error : Option String
    pub criteria_snapshot : Option Criteria
    pub expires_at : Option Stamp
    pub activated_at : Option ℕ
    pub executed_at : Option ℕ
    pub cancelled_at : Option ℕ

  pub record IntentDatabase : Type 0 where
    pub position_intents : List (String × IntentRow)
    pub positions : List (String × PositionRow N)

  -- What the scanner meets while it processes an intent: whether the clients can be made, what
  -- the oracle and the exchange answer, whether the user's trading context can be made and entered,
  -- what the venues answer when the position is opened, the id that it gets, and the clock.
  pub record World : Type 0 where
    pub clients : Result (Unit {0})
    pub funding_rates : Result (List (String × FundingRate N))
    pub volatility : String → Result Number
    pub mids : Result (List (String × Number))
    pub context : Result (Unit {0})
    pub venues : Venues N
    pub new_id : String
    pub now : ℕ
