-- ===== src/Tests/UserRisk.antt =====
-- The limits of one user on concrete trades and balances.
use Prim.Native.String.{◌++◌ as str_append}
use asgard_hl_basisstrategy.Base.{
  ℕ, ◌+◌, ◌≡◌, refl, true, false, none, some, List, [], ◌∷◌, ltb, lookup, insert, if◌then◌else◌,
  arith,
}
use asgard_hl_basisstrategy.UserRisk.{RiskRow, Database, check_peak, drawdown_pct, check_drawdown}
use asgard_hl_basisstrategy.UserRisk.Limits.{record_failure}
use asgard_hl_basisstrategy.UserRisk.Drawdown.{row_of}
use asgard_hl_basisstrategy.UserRisk.Trades.{
  Event, failed, succeeded, run, failures_of, failures_after, record_failure_lem, NotAfter,
}
use asgard_hl_basisstrategy.Tests.Decimals.{ℤ, whole, decimals}

abbrev empty_database : Database decimals
empty_database = record { risk_tracking = []; strategy_config = [] }

abbrev row : RiskRow decimals
row = record {
  peak_balance_usd = whole 1000;
  current_balance_usd = whole 900;
  daily_trade_count = 3;
  daily_trade_date = some 8;
  consecutive_failures = 1;
  last_failure_reason = some "slippage";
  last_failure_at = some 70;
}

abbrev database : Database decimals
database = record { risk_tracking = ("u", row) ∷ []; strategy_config = [] }

missing : row_of decimals "u" empty_database ≡ none
unfolding lookup
missing = refl

-- A fall of 20% pauses, one of 19.9% does not.
drawdown_test :
    ((check_drawdown decimals "u" (whole 800) 8 99 database).1 ≡ false)
    × ((check_drawdown decimals "u" (whole 801) 8 99 database).1 ≡ true)
unfolding check_drawdown check_peak drawdown_pct lookup
drawdown_test = (refl, refl)

abbrev balances : List (ℤ × ℕ × ℕ)
balances = (whole 1000, 8, 1) ∷ (whole 500, 8, 2) ∷ (whole 1, 9, 3) ∷ []

abbrev events : List (Event decimals)
events = failed "rpc" 8 5 ∷ succeeded 8 ∷ failed "rpc" 8 6 ∷ failed "slippage" 8 7 ∷ []

record_failure_lem_example :
    let before = run decimals "u" events database in
    let n = failures_after decimals (failures_of decimals (row_of decimals "u" database)) events in
    let (db', fine) = record_failure decimals "u" "rpc" 8 9 before in
    (fine ≡ ltb (n + 1) 3)
    × (db'.strategy_config ≡ (
        if ltb (n + 1) 3
        then before.strategy_config
        else insert "u"
            (record { paused_at = 9; paused_reason = str_append "circuit_breaker: " "rpc" })
            before.strategy_config))
record_failure_lem_example = record_failure_lem decimals "u" "rpc" 8 9 events database

today_or_before : NotAfter decimals 8 (row_of decimals "u" database)
unfolding lookup
today_or_before = ground arith
