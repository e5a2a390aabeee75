-- ===== src/Monitor/Refusals.antt =====
-- What the monitor can do where asyncpg takes no text for a column of type TIMESTAMP: it documents
-- `datetime.datetime` for that type, and raises DataError for another.
use asgard_hl_basisstrategy.Base.{
  ℕ, String, Bool, true, false, ◌≡◌, refl, ◌∙◌, Option, none, some, List, All, Numbers, Result,
  Result-cases, ok, raises, lookup-update_row, Option-cases, inl, inr, str-eq_iff, arith,
}
use asgard_hl_basisstrategy.Monitor.Types.{
  TimeText, non_empty, ExitDecision, PositionData, MonitorDatabase, PositionInfo, Answers,
}
use asgard_hl_basisstrategy.Monitor.Exit.{
  exit_failed, opened_text, archive, close_long_leg, close_short_leg, execute_exit, short_size,
}
use asgard_hl_basisstrategy.Monitor.Cycle.{store_updates, merge_position, or_keep, World}
use asgard_hl_basisstrategy.Monitor.Steps.{IsKept, monitor_cycles, monitor_cycles-IsKept}
use asgard_hl_basisstrategy.Monitor.History.{closed}

module _ (N : Numbers) where
  open N use {Number}

  abbrev pub is_bound : Result ℕ → Bool
  is_bound (raises e) = false
  is_bound (ok opened) = true

  -- asyncpg takes no text for a TIMESTAMP.
  abbrev pub Refuses : Answers N → Type 0
  Refuses a = (t : TimeText) → is_bound (a.bind_timestamp t) ≡ false

  -- A position is closed as it was, the history and the strategies with their cooldowns are the same.
  abbrev pub Freezes : String → MonitorDatabase N → MonitorDatabase N → Type 0
  Freezes j db db' =
      (closed N j db' ≡ closed N j db)
      × (db'.position_history ≡ db.position_history)
      × (db'.user_strategy_config ≡ db.user_strategy_config)

  Freezes-refl : (j : String) (db : MonitorDatabase N) → Freezes j db db
  Freezes-refl j db = (refl, refl, refl)

  Freezes-trans :
      (j : String) (d e f : MonitorDatabase N) → Freezes j d e → Freezes j e f → Freezes j d f
  Freezes-trans j d e f h k = (k.0 ∙ h.0, k.1 ∙ h.1, k.2 ∙ h.2)

  archive-Freezes :
      (j : String) (a : Answers N) (user id : String) (d : PositionData N) (x : ExitDecision N)
      (today now : ℕ) (db : MonitorDatabase N)
      → Refuses a
      → Freezes j db (archive N a.bind_timestamp user id d x today now db)
  unfolding archive exit_failed
  archive-Freezes j a user id d x today now db h =
      elim (Result-cases (a.bind_timestamp (opened_text N d now))) [
        | inl (e, refused) ↦ rw (refused, archive) (Freezes-refl j db)
        | inr (opened, bound) ↦ absurd (ground (arith, h (opened_text N d now), bound))
      ]

  close_long_leg-Freezes :
      (j : String) (pda : Option String) (a : Answers N) (user id : String) (d : PositionData N)
      (x : ExitDecision N) (today now : ℕ) (db : MonitorDatabase N)
      → Refuses a
      → Freezes j db (close_long_leg N pda a user id d x today now db).0
  unfolding close_long_leg exit_failed
  close_long_leg-Freezes j none a user id d x today now db h =
      archive-Freezes j a user id d x today now db h
  close_long_leg-Freezes j (some pda) a user id d x today now db h =
      elim (Result-cases a.close_position) [
        | inl (e, failed) ↦ rw (failed, close_long_leg) (Freezes-refl j db)
        | inr (r, answered) ↦
            rw (answered, close_long_leg) (archive-Freezes j a user id d x today now db h)
      ]

  execute_exit-Freezes :
      (j : String) (a : Answers N) (user id : String) (d : PositionData N) (x : ExitDecision N)
      (today now : ℕ) (db : MonitorDatabase N)
      → Refuses a
      → Freezes j db (execute_exit N a user id d x today now db).0
  unfolding execute_exit close_short_leg exit_failed
  execute_exit-Freezes j a user id d x today now db h =
      let long = close_long_leg-Freezes j (non_empty d.asgard_pda) a user id d x today now db h in
      elim (Option-cases (short_size N d)) [
        | inl none_left ↦ rw (none_left, close_short_leg) long
        | inr (size, left) ↦ rw (left, close_short_leg) (ground (arith, long))
      ]

  store_updates-Freezes :
      (j id : String) (d : PositionData N) (p : Option (PositionInfo N))
      (health rate : Option Number) (db : MonitorDatabase N)
      → Freezes j db (store_updates N id d p health rate db)
  unfolding store_updates
  store_updates-Freezes j id d p health rate db = ground (
    arith,
    lookup-update_row id j
        (λ row. record row {
          data_of = record (merge_position N p d) {
            asgard_health_factor = or_keep N health d.asgard_health_factor;
            current_funding_rate = or_keep N rate d.current_funding_rate;
          };
        })
        db.positions,
    str-eq_iff id j,
  )

  Freezes-IsKept : (j : String) → IsKept N (Freezes j) Refuses
  Freezes-IsKept j = record {
    stays = Freezes-refl j;
    follows = Freezes-trans j;
    updates = store_updates-Freezes j;
    exits = execute_exit-Freezes j;
  }

  -- Where asyncpg takes no text for a TIMESTAMP, no cycles of the monitor, whatever else they meet,
  -- ever close a position, archive one, or start a cooldown: the close's transaction always raises.
  pub monitor_cycles-Freezes :
      (j : String) (ws : List (World N)) (db : MonitorDatabase N)
      → All (λ w. (id : String) → Refuses (w.answers id)) ws
      → Freezes j db (monitor_cycles N ws db)
  monitor_cycles-Freezes j ws db h =
      monitor_cycles-IsKept N (Freezes j) Refuses (Freezes-IsKept j) ws db h
