-- ===== src/UserRisk.antt =====
-- bot/core/user_risk_manager.py: class UserRiskManager, over the tables user_risk_tracking (with the
-- defaults of migrations/015_user_risk_tracking.sql) and user_strategy_config, each a dict from its
-- primary key. NUMERIC columns and floats are `Numbers`. Days and microseconds are arguments; the
-- database's CURRENT_DATE is the day of `date.today()`. `updated_at` is left out.
pub mod Limits
pub mod Drawdown
pub mod Trades
use Prim.Native.String.{◌++◌ as str_append}
use asgard_hl_basisstrategy.Base.{
  update_row, ℕ, ◌+◌, String, Bool, true, false, ◌&&◌, Option, none, some, List, [], ◌∷◌, not, leb,
  ltb, ◌==◌, lookup, insert, if◌then◌else◌, Numbers, zero_number, le,
}

-- RISK_MAX_DAILY_TRADES and RISK_CIRCUIT_BREAKER_FAILURES of shared/config/strategy_defaults.py.
abbrev pub max_daily_trades : ℕ
max_daily_trades = 20

abbrev pub circuit_breaker_failures : ℕ
circuit_breaker_failures = 3

-- `trade_date is None or trade_date < today`
abbrev pub is_old : Option ℕ → ℕ → Bool
is_old none today = true
is_old (some d) today = ltb d today

-- `daily_trade_date = $1`, which a NULL fails.
abbrev pub is_day : Option ℕ → ℕ → Bool
is_day none today = false
is_day (some d) today = d == today

module _ (N : Numbers) where
  open N use {Number, literal, add, sub, mul, div, lt}

  pub record RiskRow : Type 0 where
    pub peak_balance_usd : Number
    pub current_balance_usd : Number
    pub daily_trade_count : ℕ
    pub daily_trade_date : Option ℕ
    pub consecutive_failures : ℕ
    pub last_failure_reason : Option String
    pub last_failure_at : Option ℕ

  pub record RiskPause : Type 0 where
    pub paused_at : ℕ
    pub paused_reason : String

  pub record Database : Type 0 where
    pub risk_tracking : List (String × RiskRow)
    pub strategy_config : List (String × RiskPause)

  -- RISK_MAX_DRAWDOWN_PCT
  abbrev pub max_drawdown_pct : Number
  max_drawdown_pct = literal 20 0

  abbrev pub fresh_row : Number → Number → ℕ → RiskRow
  fresh_row peak current today = record {
    peak_balance_usd = peak;
    current_balance_usd = current;
    daily_trade_count = 0;
    daily_trade_date = some today;
    consecutive_failures = 0;
    last_failure_reason = none;
    last_failure_at = none;
  }

  -- `_upsert_risk_row` with the two fields that it reads, which default to 0.
  unfoldable pub upsert_risk_row : String → Number → Number → ℕ → Database → Database
  upsert_risk_row user peak current today db = elim (lookup user db.risk_tracking) [
    | some row ↦ db
    | none ↦ record db {
      risk_tracking = insert user (fresh_row peak current today) db.risk_tracking;
    }
  ]

  abbrev pub update : String → (RiskRow → RiskRow) → Database → Database
  update user f db = record db { risk_tracking = update_row user f db.risk_tracking }

  unfoldable pub pause_for_risk : String → String → ℕ → Database → Database
  pause_for_risk user reason now db = record db {
    strategy_config =
        insert user (record { paused_at = now; paused_reason = reason }) db.strategy_config;
  }

  unfoldable pub drawdown_pct : Number → Number → Number
  drawdown_pct peak current = mul (div (sub peak current) peak) (literal 100 0)

  -- The two UPDATEs of `check_drawdown`.
  abbrev pub set_balance : Number → RiskRow → RiskRow
  set_balance balance r = record r { current_balance_usd = balance }

  abbrev pub set_peak : Number → RiskRow → RiskRow
  set_peak balance r = record r { peak_balance_usd = balance }

  -- `check_drawdown` of a row with a peak above 0. The reason quotes the numbers.
  unfoldable pub check_peak : String → Number → Number → ℕ → Database → Database × Bool
  check_peak user balance peak now db =
      let seen = update user (set_balance balance) db in
      if lt peak balance
      then (update user (set_peak balance) seen, true)
      else if lt (zero_number N) peak && le N max_drawdown_pct (drawdown_pct peak balance)
      then (pause_for_risk user "drawdown_limit" now seen, false)
      else (seen, true)

  unfoldable pub check_drawdown : String → Number → ℕ → ℕ → Database → Database × Bool
  unfolding check_peak
  check_drawdown user balance today now db = elim (lookup user db.risk_tracking) [
    | none ↦ (upsert_risk_row user balance balance today db, true)
    | some row ↦
        if le N row.peak_balance_usd (zero_number N)
        then (upsert_risk_row user balance balance today db, true)
        else check_peak user balance row.peak_balance_usd now db
  ]

  unfoldable pub update_peak_on_deposit : String → Number → Database → Database
  update_peak_on_deposit user amount db =
      update user
        (λ r. record r {
          peak_balance_usd = add r.peak_balance_usd amount;
          current_balance_usd = add r.current_balance_usd amount;
        })
        db

  unfoldable pub update_peak_on_withdrawal : String → Number → Number → Database → Database
  update_peak_on_withdrawal user before after db =
      if le N before (zero_number N)
      then db
      else update user
          (λ r. record r {
            peak_balance_usd = mul r.peak_balance_usd (div after before);
            current_balance_usd = after;
          })
          db
