-- ===== src/Intents/States.antt =====
-- Which statuses a scan gives, and what it does to a row that changed since it was read.
use asgard_hl_basisstrategy.Base.{
  ℕ, String, true, ◌||◌, ◌≡◌, refl, none, some, List, [], ◌∷◌, filter, Numbers, lookup, distinct,
  lookup-filter, distinct-filter, str_eq, str-eq_iff, if◌then◌else◌, arith, Bool-cases, inl, inr,
}
use asgard_hl_basisstrategy.Intents.Types.{
  pending, active, cancelled, expired, status_eq, is_scannable, IntentRow, IntentDatabase, World,
}
use asgard_hl_basisstrategy.Intents.Cycle.{process_intent, process_intents, scan_cycle}
use asgard_hl_basisstrategy.Intents.Requests.{cancel_intent, success}
use asgard_hl_basisstrategy.Intents.Rows.{
  row_of, has_status, settles, is_tried, process_intent-other, process_intent_self,
  row_of-update_intent,
}

module _ (N : Numbers) where
  process_intents-absent :
      (w : String → World N) (now : ℕ) (j : String) (rows : List (String × IntentRow N))
      (db : IntentDatabase N)
      → lookup j rows ≡ none
      → row_of N j (process_intents N w now rows db) ≡ row_of N j db
  unfolding process_intents lookup
  process_intents-absent w now j [] db h = refl
  process_intents-absent w now j ((id, row) ∷ rows) db h = ground (
    arith,
    process_intents-absent w now j rows (process_intent N (w id) now id row db),
    process_intent-other N (w id) now id j row db,
  )

  process_intents-present :
      (w : String → World N) (now : ℕ) (j : String) (rows : List (String × IntentRow N))
      (db : IntentDatabase N) (row : IntentRow N)
      → distinct rows ≡ true
      → lookup j rows ≡ some row
      → row_of N j db ≡ some row
      → has_status N
          (settles N (w j) now row row.status)
          (row_of N j (process_intents N w now rows db))
        ≡ true
  unfolding process_intents lookup
  process_intents-present w now j [] db row d h stored = absurd (ground arith)
  process_intents-present w now j ((id, r) ∷ rows) db row d h stored = ground (
    arith,
    process_intents-absent w now j rows (process_intent N (w id) now id r db),
    process_intents-present w now j rows (process_intent N (w id) now id r db) row,
    process_intent-other N (w id) now id j r db,
    process_intent_self N (w id) now id r row db,
    str-eq_iff id j,
  )

  -- A scan leaves an intent that is neither pending nor active as it is. It expires one that is past
  -- its time, without trying it; it executes or fails one exactly when it is in time and all its
  -- criteria pass; and any other is active after it. This holds for each stored intent of a table
  -- with distinct ids, whatever is met.
  pub scan_cycle_lem :
      (w : String → World N) (now : ℕ) (j : String) (row : IntentRow N) (db : IntentDatabase N)
      → distinct db.position_intents ≡ true
      → row_of N j db ≡ some row
      → has_status N
          (λ s.
            if is_scannable row.status
            then settles N (w j) now row row.status s
            else status_eq s row.status)
          (row_of N j (scan_cycle N w now db))
        ≡ true
  unfolding scan_cycle
  scan_cycle_lem w now j row db d stored =
      let rows = filter (λ r. is_scannable r.1.status) db.position_intents in
      let found =
        lookup-filter j (λ (r : IntentRow N). is_scannable r.status) db.position_intents d in
      let kept =
        distinct-filter (λ (r : IntentRow N). is_scannable r.status) db.position_intents d in
      elim (Bool-cases (is_scannable row.status)) [
        | inl scanned ↦
            rw scanned
              (process_intents-present w now j rows db row kept (ground (arith, found)) stored)
        | inr left ↦ rw left (ground (arith, found, process_intents-absent w now j rows db))
      ]

  -- If a pending intent is cancelled after a scan read its row and before the scan processes it, the
  -- cancellation answers a success and is lost: afterwards the intent is expired, or it is active,
  -- or it was executed or failed.
  pub process_intent-cancelled :
      (w : World N) (now cancelled_at : ℕ) (user id : String) (row : IntentRow N)
      (db : IntentDatabase N)
      → row_of N id db ≡ some row
      → row.status ≡ pending
      → str_eq row.user_id user ≡ true
      → let (db', answer) = cancel_intent N user id cancelled_at db in
        (answer ≡ success id)
        × (has_status N (λ s. status_eq s cancelled) (row_of N id db') ≡ true)
        × (has_status N
              (λ s. status_eq s expired || status_eq s active || is_tried s)
              (row_of N id (process_intent N w now id row db'))
            ≡ true)
  unfolding cancel_intent
  process_intent-cancelled w now at user id row db stored p own =
      let r : IntentRow N = record row { status = cancelled; cancelled_at = some at } in
      let (db', answer) = cancel_intent N user id at db in
      ground (
        arith,
        row_of-update_intent N id id (λ r. record r { status = cancelled; cancelled_at = some at })
            db,
        process_intent_self N w now id row r db',
        str-eq_iff id id,
      )
