-- ===== src/Monitor/History.antt =====
-- What the cycles of the position monitor do to the rows and to the history.
use asgard_hl_basisstrategy.Base.{
  ℕ, String, Bool, true, false, ◌&&◌, not, ◌≡◌, Option, none, some, is_some, or_else, List, [], ◌∷◌,
  All, Numbers, zero_number, Result, Result-cases, lookup, lookup-insert, lookup-update_row,
  Option-cases, inl, inr, str-eq_iff, arith,
}
use asgard_hl_basisstrategy.Monitor.Types.{
  TimeText, non_empty, ExitDecision, PositionData, PositionRow, MonitorDatabase, PositionInfo,
  Answers,
}
use asgard_hl_basisstrategy.Monitor.Exit.{
  exit_failed, opened_text, archived_rows, archive, close_long_leg, close_short_leg, execute_exit,
  short_size,
}
use asgard_hl_basisstrategy.Monitor.Cycle.{store_updates, merge_position, or_keep, World}
use asgard_hl_basisstrategy.Monitor.Steps.{IsKept, monitor_cycles, monitor_cycles-IsKept}

module _ (N : Numbers) where
  open N use {Number}

  abbrev pub row_closed : Option (PositionRow N) → Bool
  row_closed none = false
  row_closed (some row) = row.is_closed

  abbrev pub closed : String → MonitorDatabase N → Bool
  closed j db = row_closed (lookup j db.positions)

  abbrev pub archived : String → MonitorDatabase N → Bool
  archived j db = is_some (lookup j db.position_history)

  abbrev pub exists : String → MonitorDatabase N → Bool
  exists j db = is_some (lookup j db.positions)

  -- From one state to a later one a position keeps its row, stays closed and stays archived, and if
  -- it has a row it is newly closed only with a history row, and newly archived only when closed.
  abbrev pub Advances : String → MonitorDatabase N → MonitorDatabase N → Type 0
  Advances j db db' =
      (exists j db' ≡ exists j db)
      × ((closed j db && not (closed j db')) ≡ false)
      × ((archived j db && not (archived j db')) ≡ false)
      × ((closed j db' && not (closed j db) && not (archived j db')) ≡ false)
      × ((exists j db && archived j db' && not (archived j db) && not (closed j db')) ≡ false)

  Advances-refl : (j : String) (db : MonitorDatabase N) → Advances j db db
  Advances-refl j db = ground arith

  Advances-trans :
      (j : String) (d e f : MonitorDatabase N) → Advances j d e → Advances j e f → Advances j d f
  Advances-trans j d e f h k = ground arith

  archived_rows-Advances :
      (j user id : String) (d : PositionData N) (x : ExitDecision N) (opened now : ℕ)
      (db : MonitorDatabase N)
      → Advances j db (archived_rows N user id d x opened now db)
  archived_rows-Advances j user id d x opened now db = ground (
    arith,
    lookup-insert id j
        (record {
          user_id = user;
          asset = or_else d.asset "SOL";
          opened_at = opened;
          pnl_usd = or_else d.total_pnl (zero_number N);
          funding_earned_usd = or_else d.funding_earned (zero_number N);
        })
        db.position_history,
    lookup-update_row id j
        (λ row. record row {
          is_closed = true;
          data_of = record d { closed_at = some now; exit = some x };
        })
        db.positions,
    str-eq_iff id j,
  )

  archive-Advances :
      (j : String) (bind : TimeText → Result ℕ) (user id : String) (d : PositionData N)
      (x : ExitDecision N) (today now : ℕ) (db : MonitorDatabase N)
      → Advances j db (archive N bind user id d x today now db)
  unfolding archive exit_failed
  archive-Advances j bind user id d x today now db =
      elim (Result-cases (bind (opened_text N d now))) [
        | inl (e, refused) ↦ rw (refused, archive) (Advances-refl j db)
        | inr (opened, bound) ↦ elim (Option-cases (lookup id db.position_history)) [
          | inl new ↦ rw (bound, archive, new) (archived_rows-Advances j user id d x opened now db)
          | inr (row, old) ↦ rw (bound, archive, old) (Advances-refl j db)
        ]
      ]

  close_long_leg-Advances :
      (j : String) (pda : Option String) (a : Answers N) (user id : String) (d : PositionData N)
      (x : ExitDecision N) (today now : ℕ) (db : MonitorDatabase N)
      → Advances j db (close_long_leg N pda a user id d x today now db).0
  unfolding close_long_leg exit_failed
  close_long_leg-Advances j none a user id d x today now db =
      archive-Advances j a.bind_timestamp user id d x today now db
  close_long_leg-Advances j (some pda) a user id d x today now db =
      elim (Result-cases a.close_position) [
        | inl (e, failed) ↦ rw (failed, close_long_leg) (ground arith)
        | inr (r, answered) ↦
            rw (answered, close_long_leg)
              (archive-Advances j a.bind_timestamp user id d x today now db)
      ]

  execute_exit-Advances :
      (j : String) (a : Answers N) (user id : String) (d : PositionData N) (x : ExitDecision N)
      (today now : ℕ) (db : MonitorDatabase N)
      → Advances j db (execute_exit N a user id d x today now db).0
  unfolding execute_exit close_short_leg exit_failed
  execute_exit-Advances j a user id d x today now db =
      let long = close_long_leg-Advances j (non_empty d.asgard_pda) a user id d x today now db in
      elim (Option-cases (short_size N d)) [
        | inl none_left ↦ rw (none_left, close_short_leg) long
        | inr (size, left) ↦ rw (left, close_short_leg) (ground (arith, long))
      ]

  store_updates-Advances :
      (j id : String) (d : PositionData N) (p : Option (PositionInfo N))
      (health rate : Option Number) (db : MonitorDatabase N)
      → Advances j db (store_updates N id d p health rate db)
  unfolding store_updates
  store_updates-Advances j id d p health rate db = ground (
    arith,
    lookup-update_row id j
        (λ row. record row {
          data_of = record (merge_position N p d) {
            asgard_health_factor = or_keep N health d.asgard_health_factor;
            current_funding_rate = or_keep N rate d.current_funding_rate;
          };
        })
        db.positions,
    str-eq_iff id j,
  )

  Advances-IsKept : (j : String) → IsKept N (Advances j) (λ a. Unit {0})
  Advances-IsKept j = record {
    stays = Advances-refl j;
    follows = Advances-trans j;
    updates = store_updates-Advances j;
    exits = λ a user id d x today now db h. execute_exit-Advances j a user id d x today now db;
  }

  any_world : (ws : List (World N)) → All (λ w. (id : String) → Unit {0}) ws
  any_world [] = tt
  any_world (w ∷ ws) = (λ id. tt, any_world ws)

  -- Over any cycles, whatever the venues, the oracles, the contexts and asyncpg answer, a position
  -- keeps its row, a closed position stays closed, an archived one stays archived, a position is
  -- newly closed only with a row in the history, and one with a row is newly archived only when
  -- closed.
  pub monitor_cycles-Advances :
      (j : String) (ws : List (World N)) (db : MonitorDatabase N)
      → Advances j db (monitor_cycles N ws db)
  monitor_cycles-Advances j ws db =
      monitor_cycles-IsKept N (Advances j) (λ a. Unit {0}) (Advances-IsKept j) ws db (any_world ws)
