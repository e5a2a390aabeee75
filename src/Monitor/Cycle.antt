-- ===== src/Monitor/Cycle.antt =====
-- `_check_position`, `_monitor_user_positions` and `_monitor_cycle` of PositionMonitorService.
use asgard_hl_basisstrategy.Base.{
  ℕ, String, ◌||◌, not, Option, none, some, is_some, or_else, List, [], ◌∷◌, ◌++◌, filter, Numbers,
  zero_number, Result, ok, raises, lookup, insert, update_row, if◌then◌else◌,
}
use asgard_hl_basisstrategy.Monitor.Types.{
  non_empty, Funding, funding_value, is_true, to_float, ExitDecision, PositionData, PositionRow,
  StrategyRow, MonitorDatabase, PositionInfo, Answers, Request,
}
use asgard_hl_basisstrategy.Monitor.Exit.{evaluate_exit, check_user_exit_thresholds, execute_exit}

module _ (N : Numbers) where
  open N use {Number}

  -- The health factor, asked for only with an address; an exception is logged.
  abbrev pub health_of : PositionData N → Answers N → Option Number
  health_of d a = elim (non_empty d.asgard_pda) [
    | none ↦ none
    | some pda ↦ elim a.monitor_health [ ok h ↦ h | raises e ↦ none ]
  ]

  -- `float(funding_val) if funding_val else 0`, for the funding rate if there is one.
  abbrev pub live_rate : Option (Funding N) → Result (Option Number)
  live_rate none = ok none
  live_rate (some f) =
      if not (is_true N (funding_value N f))
      then ok (some (zero_number N))
      else elim (to_float N (funding_value N f)) [ raises e ↦ raises e | ok x ↦ ok (some x) ]

  -- `{**data, **updates}`
  abbrev pub merge_position : Option (PositionInfo N) → PositionData N → PositionData N
  merge_position none d = d
  merge_position (some p) d = record d {
    hl_unrealized_pnl = some p.unrealized_pnl;
    hl_margin_fraction = some p.margin_fraction;
    hl_liquidation_px = p.liquidation_px;
  }

  abbrev pub or_keep : Option Number → Option Number → Option Number
  or_keep none old = old
  or_keep (some x) old = some x

  -- The row is written only if there is something new.
  unfoldable pub store_updates :
      String
      → PositionData N
      → Option (PositionInfo N)
      → Option Number
      → Option Number
      → MonitorDatabase N
      → MonitorDatabase N
  store_updates id d p health rate db =
      if not (is_some p || is_some health || is_some rate) then db else record db {
        positions =
            update_row id
              (λ row. record row {
                data_of = record (merge_position p d) {
                  asgard_health_factor = or_keep health d.asgard_health_factor;
                  current_funding_rate = or_keep rate d.current_funding_rate;
                };
              })
              db.positions;
      }

  -- The system's checks, then the user's.
  unfoldable pub decide_exit :
      PositionData N
      → Option (PositionInfo N)
      → Option Number
      → Option (Funding N)
      → Option (StrategyRow N)
      → Result (Option (ExitDecision N))
  decide_exit d p health funding strategy = elim (evaluate_exit N p health funding) [
    | raises e ↦ raises e
    | ok (some x) ↦ ok (some x)
    | ok none ↦ elim strategy [ none ↦ ok none | some s ↦ check_user_exit_thresholds N d s funding ]
  ]

  -- What is done with the decision.
  unfoldable pub act_on_exit :
      Result (Option (ExitDecision N))
      → Answers N
      → String
      → String
      → PositionData N
      → ℕ
      → ℕ
      → MonitorDatabase N
      → MonitorDatabase N × List (Request N) × Result (Unit {0})
  act_on_exit (raises e) a user id d today now db = (db, [], raises e)
  act_on_exit (ok none) a user id d today now db = (db, [], ok tt)
  act_on_exit (ok (some x)) a user id d today now db =
      let (db', calls) = execute_exit N a user id d x today now db in (db', calls, ok tt)

  unfoldable pub check_position :
      List (String × Funding N)
      → Option (StrategyRow N)
      → Answers N
      → String
      → String
      → PositionData N
      → ℕ
      → ℕ
      → MonitorDatabase N
      → MonitorDatabase N × List (Request N) × Result (Unit {0})
  unfolding act_on_exit
  check_position rates strategy a user id d today now db = elim a.get_position [
    | raises e ↦ (db, [], raises e)
    | ok p ↦
        let funding = lookup (or_else d.asset "SOL") rates in
        let health = health_of d a in
        elim (live_rate funding) [
          | raises e ↦ (db, [], raises e)
          | ok rate ↦
              act_on_exit (decide_exit d p health funding strategy) a user id d today now
                (store_updates id d p health rate db)
        ]
  ]

  -- What a cycle meets: whether a user's context can be made, the rates that the user's oracle
  -- answers, what the venues answer about a position, and the clock.
  pub record World : Type 0 where
    pub context : String → Result (Unit {0})
    pub rates : String → Result (List (String × Funding N))
    pub answers : String → Answers N
    pub today : ℕ
    pub now : ℕ

  -- The loop over a user's positions: an exception of one is logged.
  unfoldable pub check_positions :
      World
      → List (String × Funding N)
      → Option (StrategyRow N)
      → String
      → List (String × PositionData N)
      → MonitorDatabase N
      → MonitorDatabase N × List (Request N)
  check_positions w rates strategy user [] db = (db, [])
  check_positions w rates strategy user ((id, d) ∷ ps) db =
      let (db', calls, done) =
        check_position rates strategy (w.answers id) user id d w.today w.now db in
      let (db'', calls') = check_positions w rates strategy user ps db' in (db'', calls ++ calls')

  abbrev pub rates_or_none : Result (List (String × Funding N)) → List (String × Funding N)
  rates_or_none (ok rates) = rates
  rates_or_none (raises e) = []

  unfoldable pub monitor_user_positions :
      World
      → String
      → List (String × PositionData N)
      → MonitorDatabase N
      → MonitorDatabase N × List (Request N)
  monitor_user_positions w user ps db = elim (w.context user) [
    | raises e ↦ (db, [])
    | ok t ↦
        check_positions w (rates_or_none (w.rates user)) (lookup user db.user_strategy_config) user
          ps db
  ]

  -- `by_user[row["user_id"]].append(...)`, in the order in which the users are met.
  unfoldable pub add_to_user :
      String
      → String × PositionData N
      → List (String × List (String × PositionData N))
      → List (String × List (String × PositionData N))
  add_to_user user p groups = insert user (or_else (lookup user groups) [] ++ p ∷ []) groups

  -- The grouping is of the rows before, and a row goes to the end of its user's.
  unfoldable pub group_rows :
      List (String × PositionRow N)
      → List (String × List (String × PositionData N))
      → List (String × List (String × PositionData N))
  group_rows [] groups = groups
  group_rows ((id, row) ∷ rows) groups =
      group_rows rows (add_to_user row.user_id (id, row.data_of) groups)

  unfoldable pub monitor_users :
      World
      → List (String × List (String × PositionData N))
      → MonitorDatabase N
      → MonitorDatabase N × List (Request N)
  monitor_users w [] db = (db, [])
  monitor_users w ((user, ps) ∷ groups) db =
      let (db', calls) = monitor_user_positions w user ps db in
      let (db'', calls') = monitor_users w groups db' in (db'', calls ++ calls')

  -- The rows are read once, at the start.
  unfoldable pub monitor_cycle : World → MonitorDatabase N → MonitorDatabase N × List (Request N)
  monitor_cycle w db =
      monitor_users w (group_rows (filter (λ r. not r.1.is_closed) db.positions) []) db
