-- ===== src/Intents/Lives.antt =====
-- The life of an intent over any scans and requests of users.
use asgard_hl_basisstrategy.Base.{
  ℕ, String, Bool, true, false, not, ◌≡◌, Option, none, some, List, [], ◌∷◌, filter, Numbers,
  lookup, lookup-insert, distinct, distinct-insert, distinct-update_row, str-eq_iff, arith,
  Option-cases, Result-cases, inl, inr,
}
use asgard_hl_basisstrategy.Positions.Types.{CombinedPosition}
use asgard_hl_basisstrategy.Intents.Types.{
  Status, pending, active, executed, cancelled, expired, failed, status_eq, is_scannable, Criteria,
  IntentRow, IntentDatabase, World,
}
use asgard_hl_basisstrategy.Intents.Criteria.{check_criteria}
use asgard_hl_basisstrategy.Intents.Execute.{
  update_intent, expire_intent, fail_intent, record_execution, finish_execution, open_for_intent,
  execute_intent,
}
use asgard_hl_basisstrategy.Intents.Cycle.{
  check_and_execute, process_intent, process_intents, scan_cycle,
}
use asgard_hl_basisstrategy.Intents.Requests.{
  CreateIntentRequest, create_intent, cancel_intent, new_intent,
}
use asgard_hl_basisstrategy.Intents.Rows.{row_of, has_status, row_of-update_intent}
use asgard_hl_basisstrategy.Intents.States.{scan_cycle_lem}

-- Which status may follow which: pending, then active, then one of the four that end a life.
abbrev pub may_become : Status → Status → Bool
may_become pending s = true
may_become active s = not (status_eq s pending)
may_become executed s = status_eq s executed
may_become cancelled s = status_eq s cancelled
may_become expired s = status_eq s expired
may_become failed s = status_eq s failed

module _ (N : Numbers) where
  abbrev Distinct : IntentDatabase N → Type 0
  Distinct db = distinct db.position_intents ≡ true

  update_intent-Distinct :
      (id : String) (f : IntentRow N → IntentRow N) (db : IntentDatabase N)
      → Distinct db
      → Distinct (update_intent N id f db)
  update_intent-Distinct id f db h = distinct-update_row id f db.position_intents h

  fail_intent-Distinct :
      (id error : String) (db : IntentDatabase N)
      → Distinct db
      → Distinct (fail_intent N id error db)
  unfolding fail_intent
  fail_intent-Distinct id error db h =
      update_intent-Distinct id (λ r. record r { status = failed; execution_error = some error }) db
        h

  record_execution-Distinct :
      (id : String) (row : IntentRow N) (c : Criteria N) (position : String) (now : ℕ)
      (db : IntentDatabase N)
      → Distinct db
      → Distinct (record_execution N id row c position now db)
  unfolding record_execution
  record_execution-Distinct id row c position now db h =
      elim (Option-cases (lookup position db.positions)) [
        | inl new ↦
            rw (new, record_execution)
              (distinct-update_row id
                (λ r. record r {
                  status = executed;
                  position_id = some position;
                  executed_at = some now;
                  criteria_snapshot = some c;
                })
                db.position_intents h)
        | inr (old, found) ↦
            rw (found, record_execution) (fail_intent-Distinct id "duplicate key value" db h)
      ]

  finish_execution-Distinct :
      (done : Bool) (p : Option (CombinedPosition N)) (error : Option String) (id : String)
      (row : IntentRow N) (c : Criteria N) (now : ℕ) (db : IntentDatabase N)
      → Distinct db
      → Distinct (finish_execution N done p error id row c now db)
  unfolding finish_execution
  finish_execution-Distinct true (some p) error id row c now db h =
      record_execution-Distinct id row c p.position_id now db h
  finish_execution-Distinct true none error id row c now db h = fail_intent-Distinct id _ db h
  finish_execution-Distinct false p error id row c now db h = fail_intent-Distinct id _ db h

  execute_intent-Distinct :
      (w : World N) (id : String) (row : IntentRow N) (c : Criteria N) (db : IntentDatabase N)
      → Distinct db
      → Distinct (execute_intent N w id row c db)
  unfolding execute_intent
  execute_intent-Distinct w id row c db h = elim (Result-cases (open_for_intent N w id row c)) [
    | inl (e, raised) ↦ rw (raised, execute_intent) (fail_intent-Distinct id _ db h)
    | inr (r, opened) ↦
        rw (opened, execute_intent)
          (finish_execution-Distinct r.success r.position r.error id row c w.now db h)
  ]

  check_and_execute-Distinct :
      (w : World N) (id : String) (row : IntentRow N) (db : IntentDatabase N)
      → Distinct db
      → Distinct (check_and_execute N w id row db)
  unfolding check_and_execute
  check_and_execute-Distinct w id row db h =
      let c = check_criteria N w row in
      let f : IntentRow N → IntentRow N = λ r. record r { criteria_snapshot = some c } in
      ground (
        arith,
        update_intent-Distinct id f db h,
        execute_intent-Distinct w id row c (update_intent N id f db),
      )

  process_intent-Distinct :
      (w : World N) (now : ℕ) (id : String) (row : IntentRow N) (db : IntentDatabase N)
      → Distinct db
      → Distinct (process_intent N w now id row db)
  unfolding process_intent expire_intent
  process_intent-Distinct w now id row db h =
      let f : IntentRow N → IntentRow N =
        λ r. record r { status = active; activated_at = some w.now } in
      ground (
        arith,
        update_intent-Distinct id (λ r. record r { status = expired }) db h,
        update_intent-Distinct id f db h,
        check_and_execute-Distinct w id row db h,
        check_and_execute-Distinct w id row (update_intent N id f db),
      )

  process_intents-Distinct :
      (w : String → World N) (now : ℕ) (rows : List (String × IntentRow N)) (db : IntentDatabase N)
      → Distinct db
      → Distinct (process_intents N w now rows db)
  unfolding process_intents
  process_intents-Distinct w now [] db h = h
  process_intents-Distinct w now ((id, row) ∷ rows) db h =
      process_intents-Distinct w now rows (process_intent N (w id) now id row db)
        (process_intent-Distinct (w id) now id row db h)

  -- What happens to the table: a scan with what it meets, or a user's request.
  pub data Event : Type 0 where
    scans : (String → World N) → ℕ → Event
    creates : String → Bool → Bool → CreateIntentRequest N → String → ℕ → Event
    cancels : String → String → ℕ → Event

  unfoldable pub step : Event → IntentDatabase N → IntentDatabase N
  step (scans w now) db = scan_cycle N w now db
  step (creates user known funded q id now) db = (create_intent N user known funded q id now db).0
  step (cancels user id now) db = (cancel_intent N user id now db).0

  unfoldable pub run : List Event → IntentDatabase N → IntentDatabase N
  run [] db = db
  run (e ∷ es) db = run es (step e db)

  step-Distinct : (e : Event) (db : IntentDatabase N) → Distinct db → Distinct (step e db)
  unfolding step scan_cycle create_intent cancel_intent
  step-Distinct (scans w now) db h =
      process_intents-Distinct w now (filter (λ r. is_scannable r.1.status) db.position_intents) db
        h
  step-Distinct (creates user known funded q id now) db h =
      ground (arith, distinct-insert id (new_intent N user q now) db.position_intents h)
  step-Distinct (cancels user id now) db h = ground (
    arith,
    update_intent-Distinct id (λ r. record r { status = cancelled; cancelled_at = some now }) db h,
  )

  create_intent-row :
      (j user : String) (known funded : Bool) (q : CreateIntentRequest N) (id : String) (now : ℕ)
      (row : IntentRow N) (db : IntentDatabase N)
      → row_of N j db ≡ some row
      → row_of N j (create_intent N user known funded q id now db).0 ≡ some row
  unfolding create_intent
  create_intent-row j user known funded q id now row db h =
      ground
        (arith, lookup-insert id j (new_intent N user q now) db.position_intents, str-eq_iff id j)

  cancel_intent-row :
      (j user id : String) (now : ℕ) (row : IntentRow N) (db : IntentDatabase N)
      → row_of N j db ≡ some row
      → has_status N (may_become row.status) (row_of N j (cancel_intent N user id now db).0) ≡ true
  unfolding cancel_intent
  cancel_intent-row j user id now row db h = ground (
    arith,
    row_of-update_intent N id j (λ r. record r { status = cancelled; cancelled_at = some now }) db,
    str-eq_iff id j,
  )

  scan_cycle-row :
      (w : String → World N) (now : ℕ) (j : String) (row : IntentRow N) (db : IntentDatabase N)
      → Distinct db
      → row_of N j db ≡ some row
      → has_status N (may_become row.status) (row_of N j (scan_cycle N w now db)) ≡ true
  scan_cycle-row w now j row db d h = ground (arith, scan_cycle_lem N w now j row db d h)

  step-row :
      (e : Event) (j : String) (row : IntentRow N) (db : IntentDatabase N)
      → Distinct db
      → row_of N j db ≡ some row
      → has_status N (may_become row.status) (row_of N j (step e db)) ≡ true
  unfolding step
  step-row (scans w now) j row db d h = scan_cycle-row w now j row db d h
  step-row (creates user known funded q id now) j row db d h =
      ground (arith, create_intent-row j user known funded q id now row db h)
  step-row (cancels user id now) j row db d h = cancel_intent-row j user id now row db h

  -- Over any scans, creations and cancellations that do not overlap, in a table with distinct ids,
  -- an intent is never lost, a pending one may only become active or end, an active one never goes
  -- back to pending, and an executed, cancelled, expired or failed one stays so.
  pub run-row :
      (es : List Event) (j : String) (row : IntentRow N) (db : IntentDatabase N)
      → distinct db.position_intents ≡ true
      → row_of N j db ≡ some row
      → has_status N (may_become row.status) (row_of N j (run es db)) ≡ true
  unfolding run
  run-row [] j row db d h = ground (arith, h)
  run-row (e ∷ es) j row db d h = elim (Option-cases (row_of N j (step e db))) [
    | inl gone ↦ absurd (ground (arith, step-row e j row db d h, gone))
    | inr (r, kept) ↦ ground (
      arith,
      step-row e j row db d h,
      step-Distinct e db d,
      kept,
      run-row es j r (step e db) (step-Distinct e db d) kept,
    )
  ]
