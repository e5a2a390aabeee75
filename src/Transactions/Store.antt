-- ===== src/Transactions/Store.antt =====
-- The laws of the table, and the whole behaviour of one `transition`.
use asgard_hl_basisstrategy.Base.{
  String, ◌≡◌, ap, ◌⊎◌, inl, inr, Bool, true, false, Option, none, some, List, [], ◌∷◌, ◌++◌,
  filter, not, str_eq, str-eq_iff, if◌then◌else◌, Result, ok, raises, arith, Bool-cases,
  Option-cases, value_error,
}
use asgard_hl_basisstrategy.Transactions.{
  TransactionState, TransactionRecord, StateStore, Request, building, idle, state_eq, has_id,
  fetch_one, save_state, get_state, delete_transaction, can_transition, current_state, record_of,
  transition,
}

abbrev find : String → List TransactionRecord → Option TransactionRecord
find id rows = fetch_one (filter (has_id id) rows)

find-append :
    (id : String) (rows : List TransactionRecord) (r : TransactionRecord)
    → find id (filter (λ x. not (has_id r.intent_id x)) rows ++ r ∷ [])
      ≡ (if str_eq r.intent_id id then some r else find id rows)
find-append id [] r = ground arith
find-append id (x ∷ rows) r = ground (
  arith,
  find-append id rows r,
  str-eq_iff x.intent_id r.intent_id,
  str-eq_iff x.intent_id id,
  str-eq_iff r.intent_id id,
)

-- Reading a key after a save gives the saved record for its own key and the old one for another.
pub get_state-save_state :
    (id : String) (r : TransactionRecord) (store : StateStore)
    → get_state id (save_state r store)
      ≡ (if str_eq r.intent_id id then some r else get_state id store)
unfolding get_state save_state
get_state-save_state id r store = find-append id store.rows r

find-delete :
    (id j : String) (rows : List TransactionRecord)
    → find j (filter (λ x. not (has_id id x)) rows) ≡ (if str_eq id j then none else find j rows)
find-delete id j [] = ground arith
find-delete id j (x ∷ rows) = ground (
  arith,
  find-delete id j rows,
  str-eq_iff x.intent_id id,
  str-eq_iff x.intent_id j,
  str-eq_iff id j,
)

pub get_state-delete_transaction :
    (id j : String) (store : StateStore)
    → get_state j (delete_transaction id store) ≡ (if str_eq id j then none else get_state j store)
unfolding get_state delete_transaction
get_state-delete_transaction id j store = find-delete id j store.rows

-- The state that a transition starts from, which for a key without a record is IDLE.
abbrev pub state_of : Option TransactionRecord → TransactionState
state_of none = idle
state_of (some r) = r.state

-- When a request is accepted, said without the order of the code's tests.
abbrev pub accepts : Option TransactionRecord → TransactionState → Bool
accepts none target = state_eq target building
accepts (some r) target = can_transition r.state target

accepts-building :
    (store : StateStore) (q : Request)
    → state_eq q.target_state building ≡ true
    → can_transition idle q.target_state ≡ true
unfolding can_transition
accepts-building store q h = ground arith

pub transition-accepts :
    (q : Request) (store : StateStore)
    → accepts (get_state q.intent_id store) q.target_state ≡ true
    → transition q store
      ≡ (save_state (record_of q q.saved_at) store, ok (record_of q q.returned_at))
unfolding transition current_state
transition-accepts q store h = elim (Option-cases (get_state q.intent_id store)) [
  | inl e ↦
      let fresh : state_eq q.target_state building ≡ true = rw e at h in
      rw (e, transition, current_state) (ground (arith, accepts-building store q fresh))
  | inr (r, e) ↦
      let allowed : can_transition r.state q.target_state ≡ true = rw e at h in
      rw (e, transition, current_state) (rw allowed)
]

-- The message of the refusal.
abbrev pub refusal : Option TransactionRecord → String
refusal none = "New transaction must start from BUILDING"
refusal (some r) = "Invalid transition"

pub transition-refuses :
    (q : Request) (store : StateStore)
    → accepts (get_state q.intent_id store) q.target_state ≡ false
    → transition q store ≡ (store, raises (value_error (refusal (get_state q.intent_id store))))
unfolding transition current_state
transition-refuses q store h = elim (Option-cases (get_state q.intent_id store)) [
  | inl e ↦
      let old : state_eq q.target_state building ≡ false = rw e at h in
      rw (e, transition, current_state) (rw old)
  | inr (r, e) ↦
      let barred : can_transition r.state q.target_state ≡ false = rw e at h in
      rw (e, transition, current_state) (rw barred)
]

-- An accepted request stores its record under its key, leaves every other key alone and returns the
-- record; any other request raises ValueError and leaves the table as it was.
pub transition_lem :
    (q : Request) (j : String) (store : StateStore)
    → let (store', result) = transition q store in
      ((accepts (get_state q.intent_id store) q.target_state ≡ true)
        × (result ≡ ok (record_of q q.returned_at))
        × (get_state j store'
            ≡ (if str_eq q.intent_id j then some (record_of q q.saved_at) else get_state j store)))
      ⊎ ((accepts (get_state q.intent_id store) q.target_state ≡ false)
          × (store' ≡ store)
          × (result ≡ raises (value_error (refusal (get_state q.intent_id store)))))
transition_lem q j store =
    elim (Bool-cases (accepts (get_state q.intent_id store) q.target_state)) [
      | inl e ↦ inl (
          rw (transition-accepts q store e) (
            ground (
              arith,
              get_state-save_state q.intent_id (record_of q q.saved_at) store,
              get_state-save_state j (record_of q q.saved_at) store,
              str-eq_iff q.intent_id q.intent_id,
              str-eq_iff q.intent_id j,
            )))
      | inr e ↦ inr (
        e,
        ap (λ (r : StateStore × Result TransactionRecord). r.0) (transition-refuses q store e),
        ap (λ (r : StateStore × Result TransactionRecord). r.1) (transition-refuses q store e),
      )
    ]
