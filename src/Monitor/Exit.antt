-- ===== src/Monitor/Exit.antt =====
-- `_evaluate_exit`, `_check_user_exit_thresholds` and `_execute_exit` of PositionMonitorService.
use Prim.Native.String.{◌++◌ as str_append}
use asgard_hl_basisstrategy.Base.{
  ℕ, String, Bool, true, false, ◌&&◌, ◌||◌, not, Option, none, some, or_else, number_or, List, [],
  ◌∷◌, Numbers, zero_number, le, Error, exception, message, Result, ok, raises, lookup, insert,
  update_row, if◌then◌else◌,
}
use asgard_hl_basisstrategy.Positions.Types.{
  ExitReason, health_factor, margin_fraction, funding_flip, stop_loss, target_profit, negative_apy,
}
use asgard_hl_basisstrategy.UserRisk.Limits.{record_failure}
use asgard_hl_basisstrategy.Monitor.Types.{
  non_empty, TimeText, iso, Funding, funding_value, is_true, to_float, size_to_close, Details,
  health_details, margin_details, flip_details, stop_loss_details, take_profit_details,
  carry_details, ExitDecision, PositionData, StrategyRow, MonitorDatabase, PositionInfo, Answers,
  Request, closes_short, closes_position,
}

module _ (N : Numbers) where
  open N use {Number, literal, mul, div, neg, abs, lt, eq}

  abbrev pub exits : ExitReason → Details N → Result (Option (ExitDecision N))
  exits why numbers = ok (some (record { reason = why; details = numbers }))

  -- The test of the funding rate in `_evaluate_exit`.
  unfoldable pub check_funding_flip : Option (Funding N) → Result (Option (ExitDecision N))
  check_funding_flip none = ok none
  check_funding_flip (some f) =
      if not (is_true N (funding_value N f))
      then ok none
      else elim (to_float N (funding_value N f)) [
        | raises e ↦ raises e
        | ok x ↦ if lt (zero_number N) x then exits funding_flip (flip_details x) else ok none
      ]

  abbrev pub margin_of : Option (PositionInfo N) → Option Number
  margin_of none = none
  margin_of (some p) = some p.margin_fraction

  abbrev pub is_health_critical : Option Number → Bool
  is_health_critical none = false
  is_health_critical (some h) = le N h (literal 1 1)

  abbrev pub is_margin_critical : Option Number → Bool
  is_margin_critical none = false
  is_margin_critical (some m) = lt m (literal 1 1)

  unfoldable pub evaluate_exit :
      Option (PositionInfo N)
      → Option Number
      → Option (Funding N)
      → Result (Option (ExitDecision N))
  unfolding check_funding_flip
  evaluate_exit position health funding =
      if is_health_critical health
      then exits health_factor (health_details (or_else health (zero_number N)))
      else if is_margin_critical (margin_of position)
      then exits margin_fraction (margin_details (or_else (margin_of position) (zero_number N)))
      else check_funding_flip funding

  -- `data.get("size_usd") or data.get("deployed_capital_usd", 0)`
  abbrev pub size_of : PositionData N → Number
  size_of d = number_or N d.size_usd (or_else d.deployed_capital_usd (zero_number N))

  abbrev pub has_size : PositionData N → Bool
  has_size d = not (eq (size_of d) (zero_number N)) && lt (zero_number N) (size_of d)

  abbrev pub pnl_pct : PositionData N → Number
  pnl_pct d = mul (div (or_else d.total_pnl (zero_number N)) (size_of d)) (literal 100 0)

  abbrev pub is_stopped : PositionData N → Option Number → Bool
  is_stopped d none = false
  is_stopped d (some stop) = has_size d && le N (pnl_pct d) (neg stop)

  abbrev pub is_profitable : PositionData N → Option Number → Bool
  is_profitable d none = false
  is_profitable d (some take) = has_size d && le N take (pnl_pct d)

  -- The estimated carry in percent a year.
  unfoldable pub carry_apy : Number → PositionData N → Number
  carry_apy rate d =
      mul
        (mul (mul (mul (abs rate) (literal 3 0)) (literal 365 0))
          (or_else d.leverage (literal 3 0)))
        (literal 100 0)

  unfoldable pub check_exit_carry :
      PositionData N → Option Number → Option (Funding N) → Result (Option (ExitDecision N))
  check_exit_carry d none funding = ok none
  check_exit_carry d (some least) none = ok none
  check_exit_carry d (some least) (some f) =
      if not (is_true N (funding_value N f))
      then ok none
      else elim (to_float N (funding_value N f)) [
        | raises e ↦ raises e
        | ok rate ↦
            if le N (zero_number N) rate || lt (carry_apy rate d) least
            then exits negative_apy (carry_details (carry_apy rate d) least rate)
            else ok none
      ]

  unfoldable pub check_user_exit_thresholds :
      PositionData N → StrategyRow N → Option (Funding N) → Result (Option (ExitDecision N))
  unfolding check_exit_carry
  check_user_exit_thresholds d s funding =
      if is_stopped d s.stop_loss_pct
      then exits stop_loss (stop_loss_details (pnl_pct d) (or_else s.stop_loss_pct (zero_number N)))
      else if is_profitable d s.take_profit_pct
      then exits target_profit
          (take_profit_details (pnl_pct d) (or_else s.take_profit_pct (zero_number N)))
      else check_exit_carry d s.min_exit_carry_apy funding

  -- The handler of `_execute_exit`.
  unfoldable pub exit_failed : String → Error → ℕ → ℕ → MonitorDatabase N → MonitorDatabase N
  exit_failed user e today now db = record db {
    risk = (record_failure N user (str_append "exit_failed: " (message e)) today now db.risk).0;
  }

  -- The first argument of the history row's `opened_at`, which is a text either way.
  abbrev pub opened_text : PositionData N → ℕ → TimeText
  opened_text d now = or_else d.created_at (iso now)

  -- The rows that a closed position leaves, with the best-effort update of the cooldown.
  abbrev pub archived_rows :
      String
      → String
      → PositionData N
      → ExitDecision N
      → ℕ
      → ℕ
      → MonitorDatabase N
      → MonitorDatabase N
  archived_rows user id d x opened now db = record db {
    positions =
        update_row id
          (λ row. record row {
            is_closed = true;
            data_of = record d { closed_at = some now; exit = some x };
          })
          db.positions;
    position_history =
        insert id
          (record {
            user_id = user;
            asset = or_else d.asset "SOL";
            opened_at = opened;
            pnl_usd = or_else d.total_pnl (zero_number N);
            funding_earned_usd = or_else d.funding_earned (zero_number N);
          })
          db.position_history;
    user_strategy_config =
        update_row user
          (λ s. record s {
            last_close_time = some now;
            cooldown_at_close = some s.cooldown_minutes;
          })
          db.user_strategy_config;
  }

  -- The transaction that marks and archives. It changes nothing if asyncpg refuses the text of
  -- `opened_at`, or if the history has a row with the id, which violates the primary key.
  unfoldable pub archive :
      (TimeText → Result ℕ)
      → String
      → String
      → PositionData N
      → ExitDecision N
      → ℕ
      → ℕ
      → MonitorDatabase N
      → MonitorDatabase N
  unfolding exit_failed
  archive bind user id d x today now db = elim (bind (opened_text d now)) [
    | raises e ↦ exit_failed user e today now db
    | ok opened ↦ elim (lookup id db.position_history) [
      | some row ↦ exit_failed user (exception "duplicate key value") today now db
      | none ↦ archived_rows user id d x opened now db
    ]
  ]

  -- Step 2. A failure that is answered is only logged.
  unfoldable pub close_long_leg :
      Option String
      → Answers N
      → String
      → String
      → PositionData N
      → ExitDecision N
      → ℕ
      → ℕ
      → MonitorDatabase N
      → MonitorDatabase N × List (Request N)
  unfolding archive exit_failed
  close_long_leg none a user id d x today now db =
      (archive a.bind_timestamp user id d x today now db, [])
  close_long_leg (some pda) a user id d x today now db = elim a.close_position [
    | raises e ↦ (exit_failed user e today now db, closes_position pda ∷ [])
    | ok r ↦ (archive a.bind_timestamp user id d x today now db, closes_position pda ∷ [])
  ]

  -- Step 1, then step 2.
  unfoldable pub close_short_leg :
      Option Number
      → Answers N
      → String
      → String
      → PositionData N
      → ExitDecision N
      → ℕ
      → ℕ
      → MonitorDatabase N
      → MonitorDatabase N × List (Request N)
  unfolding close_long_leg exit_failed
  close_short_leg none a user id d x today now db =
      close_long_leg (non_empty d.asgard_pda) a user id d x today now db
  close_short_leg (some size) a user id d x today now db =
      let short = closes_short (or_else d.asset "SOL") size in
      elim a.close_short [
        | raises e ↦ (exit_failed user e today now db, short ∷ [])
        | ok r ↦
            let (db', calls) = close_long_leg (non_empty d.asgard_pda) a user id d x today now db in
            if not r.success then (db, short ∷ []) else (db', short ∷ calls)
      ]

  -- `data.get("hyperliquid_size", data.get("hl_size"))`
  abbrev pub short_size : PositionData N → Option Number
  short_size d = elim d.hyperliquid_size [
    | some s ↦ size_to_close N (some s)
    | none ↦ size_to_close N d.hl_size
  ]

  unfoldable pub execute_exit :
      Answers N
      → String
      → String
      → PositionData N
      → ExitDecision N
      → ℕ
      → ℕ
      → MonitorDatabase N
      → MonitorDatabase N × List (Request N)
  unfolding close_short_leg
  execute_exit a user id d x today now db =
      close_short_leg (short_size d) a user id d x today now db
