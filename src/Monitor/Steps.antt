-- ===== src/Monitor/Steps.antt =====
-- Relations that the writes of the monitor keep are kept by its cycles.
use asgard_hl_basisstrategy.Base.{
  ℕ, String, not, Option, none, some, or_else, List, [], ◌∷◌, filter, All, Numbers, Result,
  Result-cases, ok, raises, lookup, inl, inr,
}
use asgard_hl_basisstrategy.Monitor.Types.{
  Funding, ExitDecision, PositionData, StrategyRow, MonitorDatabase, PositionInfo, Answers,
}
use asgard_hl_basisstrategy.Monitor.Exit.{execute_exit}
use asgard_hl_basisstrategy.Monitor.Cycle.{
  store_updates, decide_exit, act_on_exit, check_position, health_of, live_rate, World,
  check_positions, rates_or_none, monitor_user_positions, monitor_users, monitor_cycle, group_rows,
}

module _ (N : Numbers) where
  open N use {Number}

  -- The cycles of a run, each with what it meets.
  unfoldable pub monitor_cycles : List (World N) → MonitorDatabase N → MonitorDatabase N
  monitor_cycles [] db = db
  monitor_cycles (w ∷ ws) db = monitor_cycles ws (monitor_cycle N w db).0

  -- A preorder on databases that the update of a row keeps, and every exit with answers of a kind.
  pub record IsKept (R : MonitorDatabase N → MonitorDatabase N → Type 0)
      (Allowed : Answers N → Type 0) : Type 0 where
    pub stays : (db : MonitorDatabase N) → R db db
    pub follows : (d e f : MonitorDatabase N) → R d e → R e f → R d f
    pub updates :
        (id : String) (d : PositionData N) (p : Option (PositionInfo N))
        (health rate : Option Number) (db : MonitorDatabase N)
        → R db (store_updates N id d p health rate db)
    pub exits :
        (a : Answers N) (user id : String) (d : PositionData N) (x : ExitDecision N) (today now : ℕ)
        (db : MonitorDatabase N)
        → Allowed a
        → R db (execute_exit N a user id d x today now db).0

module _ (N : Numbers) (R : MonitorDatabase N → MonitorDatabase N → Type 0)
    (Allowed : Answers N → Type 0) (kept : IsKept N R Allowed) where
  act_on_exit-IsKept :
      (r : Result (Option (ExitDecision N))) (a : Answers N) (user id : String) (d : PositionData N)
      (today now : ℕ) (db : MonitorDatabase N)
      → Allowed a
      → R db (act_on_exit N r a user id d today now db).0
  unfolding act_on_exit
  act_on_exit-IsKept (raises e) a user id d today now db h = kept.stays db
  act_on_exit-IsKept (ok none) a user id d today now db h = kept.stays db
  act_on_exit-IsKept (ok (some x)) a user id d today now db h =
      kept.exits a user id d x today now db h

  check_position-IsKept :
      (rates : List (String × Funding N)) (strategy : Option (StrategyRow N)) (a : Answers N)
      (user id : String) (d : PositionData N) (today now : ℕ) (db : MonitorDatabase N)
      → Allowed a
      → R db (check_position N rates strategy a user id d today now db).0
  unfolding check_position
  check_position-IsKept rates strategy a user id d today now db h =
      elim (Result-cases a.get_position) [
        | inl (e, failed) ↦ rw (failed, check_position) (kept.stays db)
        | inr (p, answered) ↦
            let funding = lookup (or_else d.asset "SOL") rates in
            let health = health_of N d a in
            elim (Result-cases (live_rate N funding)) [
              | inl (e, failed) ↦ rw (answered, check_position, failed) (kept.stays db)
              | inr (rate, numeric) ↦
                  let seen = store_updates N id d p health rate db in
                  let decided = decide_exit N d p health funding strategy in
                  rw (answered, check_position, numeric)
                    (kept.follows db seen (act_on_exit N decided a user id d today now seen).0
                      (kept.updates id d p health rate db)
                      (act_on_exit-IsKept decided a user id d today now seen h))
            ]
      ]

  check_positions-IsKept :
      (w : World N) (rates : List (String × Funding N)) (strategy : Option (StrategyRow N))
      (user : String) (ps : List (String × PositionData N)) (db : MonitorDatabase N)
      → ((id : String) → Allowed (w.answers id))
      → R db (check_positions N w rates strategy user ps db).0
  unfolding check_positions
  check_positions-IsKept w rates strategy user [] db h = kept.stays db
  check_positions-IsKept w rates strategy user ((id, d) ∷ ps) db h =
      let next = (check_position N rates strategy (w.answers id) user id d w.today w.now db).0 in
      kept.follows db next (check_positions N w rates strategy user ps next).0
        (check_position-IsKept rates strategy (w.answers id) user id d w.today w.now db (h id))
        (check_positions-IsKept w rates strategy user ps next h)

  monitor_user_positions-IsKept :
      (w : World N) (user : String) (ps : List (String × PositionData N)) (db : MonitorDatabase N)
      → ((id : String) → Allowed (w.answers id))
      → R db (monitor_user_positions N w user ps db).0
  unfolding monitor_user_positions
  monitor_user_positions-IsKept w user ps db h = elim (Result-cases (w.context user)) [
    | inl (e, failed) ↦ rw (failed, monitor_user_positions) (kept.stays db)
    | inr (t, made) ↦
        rw (made, monitor_user_positions)
          (check_positions-IsKept w (rates_or_none N (w.rates user))
            (lookup user db.user_strategy_config) user ps db h)
  ]

  monitor_users-IsKept :
      (w : World N) (groups : List (String × List (String × PositionData N)))
      (db : MonitorDatabase N)
      → ((id : String) → Allowed (w.answers id))
      → R db (monitor_users N w groups db).0
  unfolding monitor_users
  monitor_users-IsKept w [] db h = kept.stays db
  monitor_users-IsKept w ((user, ps) ∷ groups) db h =
      let next = (monitor_user_positions N w user ps db).0 in
      kept.follows db next (monitor_users N w groups next).0
        (monitor_user_positions-IsKept w user ps db h) (monitor_users-IsKept w groups next h)

  pub monitor_cycles-IsKept :
      (ws : List (World N)) (db : MonitorDatabase N)
      → All (λ w. (id : String) → Allowed (w.answers id)) ws
      → R db (monitor_cycles N ws db)
  unfolding monitor_cycles monitor_cycle
  monitor_cycles-IsKept [] db h = kept.stays db
  monitor_cycles-IsKept (w ∷ ws) db h =
      let next = (monitor_cycle N w db).0 in
      kept.follows db next (monitor_cycles N ws next)
        (monitor_users-IsKept w (group_rows N (filter (λ r. not r.1.is_closed) db.positions) []) db
          h.0)
        (monitor_cycles-IsKept ws next h.1)
