-- ===== src/UserRisk/Trades.antt =====
-- The daily trade limit and the circuit breaker.
use Prim.Native.String.{◌++◌ as str_append}
use asgard_hl_basisstrategy.Base.{
  ◌||◌, ℕ, zero, suc, ◌+◌, String, ◌≡◌, refl, ◌∙◌, true, Option, or_else, none, some, List, [], ◌∷◌,
  ltb, insert, if◌then◌else◌, Numbers, zero_number, arith, Option-cases, inl, inr,
}
use asgard_hl_basisstrategy.UserRisk.{
  RiskRow, Database, upsert_risk_row, pause_for_risk, fresh_row, update, is_old, is_day,
}
use asgard_hl_basisstrategy.UserRisk.Limits.{
  check_daily_trade_limit, record_trade, record_failure, record_success, add_failure,
  reset_failures, trip_breaker,
}
use asgard_hl_basisstrategy.UserRisk.Drawdown.{
  row_of, row_of-update_self, row_of-upsert, row_of-record_trade,
}

module _ (N : Numbers) where
  -- The calls that change a user's row after a trade was tried, at a day and a time.
  pub data Event : Type 0 where
    failed : String → ℕ → ℕ → Event
    succeeded : ℕ → Event
    traded : ℕ → Event

  unfoldable pub step : String → Event → Database N → Database N
  step user (failed reason today now) db = (record_failure N user reason today now db).0
  step user (succeeded today) db = record_success N user today db
  step user (traded today) db = record_trade N user today db

  unfoldable pub run : String → List Event → Database N → Database N
  run user [] db = db
  run user (e ∷ es) db = run user es (step user e db)

  -- The failures since the last success or trade, from a number before.
  abbrev pub failures_after : ℕ → List Event → ℕ
  failures_after n [] = n
  failures_after n (failed reason today now ∷ es) = failures_after (n + 1) es
  failures_after n (succeeded today ∷ es) = failures_after 0 es
  failures_after n (traded today ∷ es) = failures_after 0 es

  -- A missing row counts as one with no failures.
  abbrev pub failures_of : Option (RiskRow N) → ℕ
  failures_of none = 0
  failures_of (some r) = r.consecutive_failures

  abbrev row_now : String → ℕ → Database N → RiskRow N
  row_now user today db =
      or_else (row_of N user db) (fresh_row N (zero_number N) (zero_number N) today)

  abbrev ensured : String → ℕ → Database N → Database N
  ensured user today db = upsert_risk_row N user (zero_number N) (zero_number N) today db

  row_of-record_success :
      (user : String) (today : ℕ) (db : Database N)
      → row_of N user (record_success N user today db)
        ≡ some (reset_failures N (row_now user today db))
  unfolding record_success
  row_of-record_success user today db =
      row_of-update_self N user (reset_failures N) (ensured user today db) (row_now user today db)
        (row_of-upsert N user (zero_number N) (zero_number N) today db)

  row_of-trip_breaker :
      (user reason : String) (now : ℕ) (db : Database N)
      → row_of N user (trip_breaker N user reason now db).0 ≡ row_of N user db
  unfolding trip_breaker pause_for_risk
  row_of-trip_breaker user reason now db = ground arith

  row_of-record_failure :
      (user reason : String) (today now : ℕ) (db : Database N)
      → row_of N user (record_failure N user reason today now db).0
        ≡ some (add_failure N reason now (row_now user today db))
  unfolding record_failure
  row_of-record_failure user reason today now db =
      row_of-trip_breaker user reason now
        (update N user (add_failure N reason now) (ensured user today db))
      ∙ row_of-update_self N user (add_failure N reason now) (ensured user today db)
          (row_now user today db) (row_of-upsert N user (zero_number N) (zero_number N) today db)

  failures_of-step :
      (user : String) (e : Event) (db : Database N)
      → failures_of (row_of N user (step user e db))
        ≡ failures_after (failures_of (row_of N user db)) (e ∷ [])
  unfolding step
  failures_of-step user (failed reason today now) db =
      ground (arith, row_of-record_failure user reason today now db)
  failures_of-step user (succeeded today) db = ground (arith, row_of-record_success user today db)
  failures_of-step user (traded today) db = ground (arith, row_of-record_trade N user today db)

  failures_of-run :
      (user : String) (es : List Event) (db : Database N)
      → failures_of (row_of N user (run user es db))
        ≡ failures_after (failures_of (row_of N user db)) es
  unfolding run
  failures_of-run user [] db = refl
  failures_of-run user (failed reason today now ∷ es) db = ground (
    arith,
    failures_of-run user es (step user (failed reason today now) db),
    failures_of-step user (failed reason today now) db,
  )
  failures_of-run user (succeeded today ∷ es) db = ground (
    arith,
    failures_of-run user es (step user (succeeded today) db),
    failures_of-step user (succeeded today) db,
  )
  failures_of-run user (traded today ∷ es) db = ground (
    arith,
    failures_of-run user es (step user (traded today) db),
    failures_of-step user (traded today) db,
  )

  upsert_risk_row-config :
      (user : String) (peak current : N.Number) (today : ℕ) (db : Database N)
      → (upsert_risk_row N user peak current today db).strategy_config ≡ db.strategy_config
  unfolding upsert_risk_row
  upsert_risk_row-config user peak current today db = ground arith

  -- After any failures, successes and trades of a user, one more failure answers false exactly when
  -- it is at least the third since the user's last success or trade, and it then pauses the user at
  -- that time; otherwise no pause changes.
  pub record_failure_lem :
      (user reason : String) (today now : ℕ) (es : List Event) (db : Database N)
      → let before = run user es db in
        let n = failures_after (failures_of (row_of N user db)) es in
        let (db', fine) = record_failure N user reason today now before in
        (fine ≡ ltb (n + 1) 3)
        × (db'.strategy_config ≡ (
            if ltb (n + 1) 3
            then before.strategy_config
            else insert user
                (record { paused_at = now; paused_reason = str_append "circuit_breaker: " reason })
                before.strategy_config))
  unfolding record_failure trip_breaker pause_for_risk
  record_failure_lem user reason today now es db =
      let before = run user es db in
      ground (
        arith,
        failures_of-run user es db,
        upsert_risk_row-config user (zero_number N) (zero_number N) today before,
        row_of-update_self N user (add_failure N reason now) (ensured user today before)
            (row_now user today before)
            (row_of-upsert N user (zero_number N) (zero_number N) today before),
      )

  -- The trades of a day that a row counts.
  abbrev pub count_on : ℕ → Option (RiskRow N) → ℕ
  count_on today none = 0
  count_on today (some r) = if is_day r.daily_trade_date today then r.daily_trade_count else 0

  -- No trade is recorded for a later day.
  abbrev pub NotAfter : ℕ → Option (RiskRow N) → Type 0
  NotAfter today none = Unit {0}
  NotAfter today (some r) =
      (is_day r.daily_trade_date today || is_old r.daily_trade_date today) ≡ true

  unfoldable pub trade : ℕ → String → ℕ → Database N → Database N
  trade zero user today db = db
  trade (suc n) user today db = trade n user today (record_trade N user today db)

  record_trade-NotAfter :
      (user : String) (today : ℕ) (db : Database N)
      → NotAfter today (row_of N user (record_trade N user today db))
        × (count_on today (row_of N user (record_trade N user today db))
            ≡ count_on today (row_of N user db) + 1)
  record_trade-NotAfter user today db = ground (arith, row_of-record_trade N user today db)

  check_daily_trade_limit-count :
      (user : String) (today : ℕ) (db : Database N)
      → NotAfter today (row_of N user db)
      → (check_daily_trade_limit N user today db).1 ≡ ltb (count_on today (row_of N user db)) 20
  unfolding check_daily_trade_limit
  check_daily_trade_limit-count user today db h = elim (Option-cases (row_of N user db)) [
    | inl missing ↦ rw (missing, check_daily_trade_limit) refl
    | inr (r, found) ↦ ground (arith, found)
  ]

  -- After n recorded trades of a user in one day, the daily limit allows another exactly when those
  -- and the trades counted for that day before are fewer than 20, provided that no trade of the
  -- user is recorded for a later day.
  pub check_daily_trade_limit_lem :
      (n : ℕ) (user : String) (today : ℕ) (db : Database N)
      → NotAfter today (row_of N user db)
      → (check_daily_trade_limit N user today (trade n user today db)).1
        ≡ ltb (count_on today (row_of N user db) + n) 20
  unfolding trade
  check_daily_trade_limit_lem zero user today db h =
      ground (arith, check_daily_trade_limit-count user today db h)
  check_daily_trade_limit_lem (suc n) user today db h =
      let (later, counted) = record_trade-NotAfter user today db in
      ground (
        arith,
        counted,
        check_daily_trade_limit_lem n user today (record_trade N user today db) later,
      )
