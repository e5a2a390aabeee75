-- ===== src/UserRisk/Limits.antt =====
-- The daily trade limit and the circuit breaker of UserRiskManager.
use Prim.Native.String.{◌++◌ as str_append}
use asgard_hl_basisstrategy.Base.{
  ℕ, ◌+◌, String, Bool, true, false, none, some, leb, ltb, lookup, if◌then◌else◌, Numbers,
  zero_number,
}
use asgard_hl_basisstrategy.UserRisk.{
  Database, RiskRow, circuit_breaker_failures, is_day, is_old, max_daily_trades, pause_for_risk,
  update, upsert_risk_row,
}

module _ (N : Numbers) where
  unfoldable pub check_daily_trade_limit : String → ℕ → Database N → Database N × Bool
  check_daily_trade_limit user today db = elim (lookup user db.risk_tracking) [
    | none ↦ (db, true)
    | some row ↦
        if is_old row.daily_trade_date today
        then (
          update N user (λ r. record r { daily_trade_count = 0; daily_trade_date = some today }) db,
          true,
        )
        else (db, ltb row.daily_trade_count max_daily_trades)
  ]

  -- What the UPDATEs of the three records set.
  abbrev pub add_trade : ℕ → RiskRow N → RiskRow N
  add_trade today r = record r {
    daily_trade_count = if is_day r.daily_trade_date today then r.daily_trade_count + 1 else 1;
    daily_trade_date = some today;
    consecutive_failures = 0;
    last_failure_reason = none;
  }

  abbrev pub add_failure : String → ℕ → RiskRow N → RiskRow N
  add_failure reason now r = record r {
    consecutive_failures = r.consecutive_failures + 1;
    last_failure_reason = some reason;
    last_failure_at = some now;
  }

  abbrev pub reset_failures : RiskRow N → RiskRow N
  reset_failures r = record r { consecutive_failures = 0; last_failure_reason = none }

  unfoldable pub record_trade : String → ℕ → Database N → Database N
  record_trade user today db =
      update N user (add_trade today)
        (upsert_risk_row N user (zero_number N) (zero_number N) today db)

  -- The query after the update and the decision on it. The reason quotes the count.
  unfoldable pub trip_breaker : String → String → ℕ → Database N → Database N × Bool
  trip_breaker user reason now db = elim (lookup user db.risk_tracking) [
    | none ↦ (db, true)
    | some row ↦
        if leb circuit_breaker_failures row.consecutive_failures
        then (pause_for_risk N user (str_append "circuit_breaker: " reason) now db, false)
        else (db, true)
  ]

  unfoldable pub record_failure : String → String → ℕ → ℕ → Database N → Database N × Bool
  unfolding trip_breaker
  record_failure user reason today now db = trip_breaker user reason now (
      update N user (add_failure reason now)
        (upsert_risk_row N user (zero_number N) (zero_number N) today db))

  unfoldable pub record_success : String → ℕ → Database N → Database N
  record_success user today db =
      update N user reset_failures (upsert_risk_row N user (zero_number N) (zero_number N) today db)
