-- ===== src/Intents/Cycle.antt =====
-- `_process_intent` and `_scan_cycle` of IntentScanner.
use asgard_hl_basisstrategy.Base.{
  ℕ, String, Bool, false, Option, none, some, List, [], ◌∷◌, filter, ltb, Numbers, if◌then◌else◌,
}
use asgard_hl_basisstrategy.Intents.Types.{
  pending, active, status_eq, is_scannable, Stamp, stamp, unreadable, IntentRow, IntentDatabase,
  World,
}
use asgard_hl_basisstrategy.Intents.Criteria.{check_criteria}
use asgard_hl_basisstrategy.Intents.Execute.{update_intent, expire_intent, execute_intent}

-- `expires_at and now > expires_at`, for a value that is there.
abbrev pub is_expired : Option Stamp → ℕ → Bool
is_expired none now = false
is_expired (some unreadable) now = false
is_expired (some (stamp t)) now = ltb t now

module _ (N : Numbers) where
  -- The intent is active from here on; its criteria are checked and stored.
  unfoldable pub check_and_execute :
      World N → String → IntentRow N → IntentDatabase N → IntentDatabase N
  check_and_execute w id row db =
      let c = check_criteria N w row in
      let db' = update_intent N id (λ r. record r { criteria_snapshot = some c }) db in
      if c.all_passed then execute_intent N w id row c db' else db'

  -- `now` is when the cycle began; the row is the one that it read.
  unfoldable pub process_intent :
      World N → ℕ → String → IntentRow N → IntentDatabase N → IntentDatabase N
  unfolding check_and_execute expire_intent
  process_intent w now id row db =
      if is_expired row.expires_at now
      then expire_intent N id db
      else check_and_execute w id row (
          if status_eq row.status pending
          then update_intent N id (λ r. record r { status = active; activated_at = some w.now }) db
          else db)

  -- The loop over the rows: what it meets may differ from one intent to another.
  unfoldable pub process_intents :
      (String → World N) → ℕ → List (String × IntentRow N) → IntentDatabase N → IntentDatabase N
  process_intents w now [] db = db
  process_intents w now ((id, row) ∷ rows) db =
      process_intents w now rows (process_intent (w id) now id row db)

  unfoldable pub scan_cycle : (String → World N) → ℕ → IntentDatabase N → IntentDatabase N
  scan_cycle w now db =
      process_intents w now (filter (λ r. is_scannable r.1.status) db.position_intents) db
