-- ===== src/Transactions.antt =====
-- bot/state/state_machine.py: the SQLite table of transactions (class StateStore) and the state
-- machine over it (class TransactionStateMachine), with TransactionState of shared/models/common.py.
-- The table is the list of its rows, keyed by `intent_id`; its column `state` holds the member that
-- `TransactionState(row[1])` reads back. Times are microseconds, and an exception's message is kept
-- up to the values that it quotes.
pub mod Store
pub mod Paths
pub mod Histories
pub mod Recovery
use asgard_hl_basisstrategy.Base.{
  ℕ, String, Bool, true, false, Option, none, some, List, [], ◌∷◌, ◌++◌, filter, any, not, str_eq,
  if◌then◌else◌, value_error, Result, ok, raises,
}

pub data TransactionState : Type 0 where
  idle building built signing signed submitting submitted confirmed failed : TransactionState

abbrev pub TransactionState-discrete : Discrete TransactionState
TransactionState-discrete = hlevel

abbrev pub state_eq : TransactionState → TransactionState → Bool
state_eq a b = elim (TransactionState-discrete a b) [ yes h ↦ true | no h ↦ false ]

pub record TransactionRecord : Type 0 where
  pub intent_id : String
  pub state : TransactionState
  pub timestamp : ℕ
  pub signature : Option String
  pub metadata : Option String
  pub error : Option String

pub record StateStore : Type 0 where
  pub rows : List TransactionRecord

-- The empty table that `_init_db` creates.
unfoldable pub init_db : StateStore
init_db = record { rows = [] }

-- `WHERE intent_id = ?`
abbrev pub has_id : String → TransactionRecord → Bool
has_id id r = str_eq r.intent_id id

-- `INSERT OR REPLACE`: a row of the same key goes, and the new one comes last.
unfoldable pub save_state : TransactionRecord → StateStore → StateStore
save_state r store = record { rows = filter (λ x. not (has_id r.intent_id x)) store.rows ++ r ∷ [] }

-- `fetchone` on the rows of a query.
abbrev pub fetch_one : List TransactionRecord → Option TransactionRecord
fetch_one [] = none
fetch_one (r ∷ rs) = some r

unfoldable pub get_state : String → StateStore → Option TransactionRecord
get_state id store = fetch_one (filter (has_id id) store.rows)

abbrev pub incomplete_states : List TransactionState
incomplete_states = idle ∷ building ∷ built ∷ signing ∷ signed ∷ submitting ∷ submitted ∷ []

-- `s in states`
abbrev pub is_in : TransactionState → List TransactionState → Bool
is_in s states = any (state_eq s) states

unfoldable pub get_incomplete_transactions : StateStore → List TransactionRecord
get_incomplete_transactions store = filter (λ r. is_in r.state incomplete_states) store.rows

unfoldable pub get_transactions_by_state : TransactionState → StateStore → List TransactionRecord
get_transactions_by_state s store = filter (λ r. state_eq r.state s) store.rows

unfoldable pub delete_transaction : String → StateStore → StateStore
delete_transaction id store = record { rows = filter (λ x. not (has_id id x)) store.rows }

-- `VALID_TRANSITIONS`, which has every state.
abbrev pub valid_transitions : TransactionState → List TransactionState
valid_transitions idle = building ∷ failed ∷ []
valid_transitions building = built ∷ failed ∷ []
valid_transitions built = signing ∷ failed ∷ []
valid_transitions signing = signed ∷ failed ∷ []
valid_transitions signed = submitting ∷ failed ∷ []
valid_transitions submitting = submitted ∷ failed ∷ []
valid_transitions submitted = confirmed ∷ failed ∷ []
valid_transitions confirmed = []
valid_transitions failed = []

unfoldable pub can_transition : TransactionState → TransactionState → Bool
can_transition current target = is_in target (valid_transitions current)

-- The arguments of `transition`, and the two readings of the clock: for the row and for the result.
pub record Request : Type 0 where
  pub intent_id : String
  pub target_state : TransactionState
  pub signature : Option String
  pub metadata : Option String
  pub error : Option String
  pub saved_at : ℕ
  pub returned_at : ℕ

-- The record that a request describes, with a time.
abbrev pub record_of : Request → ℕ → TransactionRecord
record_of q now = record {
  intent_id = q.intent_id;
  state = q.target_state;
  timestamp = now;
  signature = q.signature;
  metadata = q.metadata;
  error = q.error;
}

-- The current state, once a missing record has been checked.
unfoldable pub current_state : TransactionState → Option TransactionRecord → Result TransactionState
current_state target none =
    if not (state_eq target building)
    then raises (value_error "New transaction must start from BUILDING")
    else ok idle
current_state target (some r) = ok r.state

unfoldable pub transition : Request → StateStore → StateStore × Result TransactionRecord
transition q store = elim (current_state q.target_state (get_state q.intent_id store)) [
  | raises e ↦ (store, raises e)
  | ok current ↦
      if not (can_transition current q.target_state)
      then (store, raises (value_error "Invalid transition"))
      else (save_state (record_of q q.saved_at) store, ok (record_of q q.returned_at))
]

unfoldable pub recover_on_startup : StateStore → List TransactionRecord
unfolding get_incomplete_transactions
recover_on_startup store = get_incomplete_transactions store
