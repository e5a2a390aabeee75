-- ===== src/Intents/Rows.antt =====
-- What processing one intent does to the rows of position_intents.
use asgard_hl_basisstrategy.Base.{
  ℕ, String, Bool, true, false, ◌||◌, ◌≡◌, Option, none, some, or_else, Numbers, message,
  Result-cases, lookup, lookup-update_row, Option-cases, inl, inr, str_eq, str-eq_iff,
  if◌then◌else◌, arith,
}
use asgard_hl_basisstrategy.Positions.Types.{CombinedPosition}
use asgard_hl_basisstrategy.Intents.Types.{
  Status, pending, active, executed, expired, failed, status_eq, Criteria, IntentRow,
  IntentDatabase, World,
}
use asgard_hl_basisstrategy.Intents.Criteria.{check_criteria}
use asgard_hl_basisstrategy.Intents.Execute.{
  update_intent, expire_intent, fail_intent, record_execution, finish_execution, open_for_intent,
  execute_intent,
}
use asgard_hl_basisstrategy.Intents.Cycle.{is_expired, check_and_execute, process_intent}

-- The intent was tried: it has been executed, or it failed.
abbrev pub is_tried : Status → Bool
is_tried s = status_eq s executed || status_eq s failed

module _ (N : Numbers) where
  abbrev pub row_of : String → IntentDatabase N → Option (IntentRow N)
  row_of j db = lookup j db.position_intents

  abbrev pub has_status : (Status → Bool) → Option (IntentRow N) → Bool
  has_status p none = false
  has_status p (some r) = p r.status

  pub row_of-update_intent :
      (id j : String) (f : IntentRow N → IntentRow N) (db : IntentDatabase N)
      → row_of j (update_intent N id f db) ≡ (
          if str_eq id j
          then elim (row_of id db) [ none ↦ none | some r ↦ some (f r) ]
          else row_of j db)
  row_of-update_intent id j f db = lookup-update_row id j f db.position_intents

  row_of-fail_intent :
      (id j error : String) (db : IntentDatabase N)
      → row_of j (fail_intent N id error db) ≡ (
          if str_eq id j
          then elim (row_of id db) [
            | none ↦ none
            | some r ↦ some (record r { status = failed; execution_error = some error })
          ]
          else row_of j db)
  unfolding fail_intent
  row_of-fail_intent id j error db =
      row_of-update_intent id j (λ r. record r { status = failed; execution_error = some error }) db

  -- One row is tried, and no other changes.
  abbrev Tries : String → String → IntentDatabase N → IntentDatabase N → Type 0
  Tries id j db db' =
      (if str_eq id j
        then has_status is_tried (row_of j db') ≡ has_status (λ s. true) (row_of j db)
        else row_of j db' ≡ row_of j db)

  fail_intent-Tries :
      (id j error : String) (db : IntentDatabase N) → Tries id j db (fail_intent N id error db)
  fail_intent-Tries id j error db =
      ground (arith, row_of-fail_intent id j error db, str-eq_iff id j)

  record_execution-Tries :
      (id j : String) (row : IntentRow N) (c : Criteria N) (position : String) (now : ℕ)
      (db : IntentDatabase N)
      → Tries id j db (record_execution N id row c position now db)
  unfolding record_execution
  record_execution-Tries id j row c position now db =
      elim (Option-cases (lookup position db.positions)) [
        | inl new ↦
            rw (new, record_execution)
              (ground (
                arith,
                lookup-update_row id j
                    (λ r. record r {
                      status = executed;
                      position_id = some position;
                      executed_at = some now;
                      criteria_snapshot = some c;
                    })
                    db.position_intents,
                str-eq_iff id j,
              ))
        | inr (old, found) ↦
            rw (found, record_execution) (fail_intent-Tries id j "duplicate key value" db)
      ]

  finish_execution-Tries :
      (done : Bool) (p : Option (CombinedPosition N)) (error : Option String) (id j : String)
      (row : IntentRow N) (c : Criteria N) (now : ℕ) (db : IntentDatabase N)
      → Tries id j db (finish_execution N done p error id row c now db)
  unfolding finish_execution
  finish_execution-Tries true (some p) error id j row c now db =
      record_execution-Tries id j row c p.position_id now db
  finish_execution-Tries true none error id j row c now db =
      fail_intent-Tries id j (or_else error "Unknown error") db
  finish_execution-Tries false p error id j row c now db =
      fail_intent-Tries id j (or_else error "Unknown error") db

  execute_intent-Tries :
      (w : World N) (id j : String) (row : IntentRow N) (c : Criteria N) (db : IntentDatabase N)
      → Tries id j db (execute_intent N w id row c db)
  unfolding execute_intent
  execute_intent-Tries w id j row c db = elim (Result-cases (open_for_intent N w id row c)) [
    | inl (e, failed_to_open) ↦
        rw (failed_to_open, execute_intent) (fail_intent-Tries id j (message e) db)
    | inr (r, opened) ↦
        rw (opened, execute_intent)
          (finish_execution-Tries r.success r.position r.error id j row c w.now db)
  ]

  check_and_execute-other :
      (w : World N) (id j : String) (row : IntentRow N) (db : IntentDatabase N)
      → str_eq id j ≡ false
      → row_of j (check_and_execute N w id row db) ≡ row_of j db
  unfolding check_and_execute
  check_and_execute-other w id j row db h =
      let c = check_criteria N w row in
      let f : IntentRow N → IntentRow N = λ r. record r { criteria_snapshot = some c } in
      ground (
        arith,
        row_of-update_intent id j f db,
        execute_intent-Tries w id j row c (update_intent N id f db),
      )

  check_and_execute_self :
      (w : World N) (id : String) (row r : IntentRow N) (db : IntentDatabase N)
      → row_of id db ≡ some r
      → has_status
          (λ s. if (check_criteria N w row).all_passed then is_tried s else status_eq s r.status)
          (row_of id (check_and_execute N w id row db))
        ≡ true
  unfolding check_and_execute
  check_and_execute_self w id row r db h =
      let c = check_criteria N w row in
      let f : IntentRow N → IntentRow N = λ r. record r { criteria_snapshot = some c } in
      ground (
        arith,
        row_of-update_intent id id f db,
        execute_intent-Tries w id id row c (update_intent N id f db),
        str-eq_iff id id,
      )

  pub process_intent-other :
      (w : World N) (now : ℕ) (id j : String) (row : IntentRow N) (db : IntentDatabase N)
      → str_eq id j ≡ false
      → row_of j (process_intent N w now id row db) ≡ row_of j db
  unfolding process_intent expire_intent
  process_intent-other w now id j row db h =
      let f : IntentRow N → IntentRow N =
        λ r. record r { status = active; activated_at = some w.now } in
      ground (
        arith,
        row_of-update_intent id j (λ r. record r { status = expired }) db,
        row_of-update_intent id j f db,
        check_and_execute-other w id j row db h,
        check_and_execute-other w id j row (update_intent N id f db) h,
      )

  -- The status that processing gives, from the row that was read and the status that is stored.
  abbrev pub settles : World N → ℕ → IntentRow N → Status → Status → Bool
  settles w now row stored s =
      if is_expired row.expires_at now
      then status_eq s expired
      else if (check_criteria N w row).all_passed
      then is_tried s
      else status_eq s (if status_eq row.status pending then active else stored)

  pub process_intent_self :
      (w : World N) (now : ℕ) (id : String) (row r : IntentRow N) (db : IntentDatabase N)
      → row_of id db ≡ some r
      → has_status (settles w now row r.status) (row_of id (process_intent N w now id row db))
        ≡ true
  unfolding process_intent expire_intent
  process_intent_self w now id row r db h =
      let f : IntentRow N → IntentRow N =
        λ r. record r { status = active; activated_at = some w.now } in
      ground (
        arith,
        row_of-update_intent id id (λ r. record r { status = expired }) db,
        row_of-update_intent id id f db,
        check_and_execute_self w id row r db h,
        check_and_execute_self w id row (f r) (update_intent N id f db),
        str-eq_iff id id,
      )
