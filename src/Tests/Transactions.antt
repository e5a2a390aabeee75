-- ===== src/Tests/Transactions.antt =====
-- The transaction state machine on concrete requests.
use asgard_hl_basisstrategy.Base.{
  ℕ, String, ◌≡◌, ◌⊎◌, inl, refl, true, false, none, some, List, [], ◌∷◌, str_eq, if◌then◌else◌,
  value_error, raises, ok,
}
use asgard_hl_basisstrategy.Transactions.{
  TransactionState, StateStore, Request, idle, building, built, signing, signed, submitting,
  submitted, confirmed, init_db, save_state, current_state, get_state, transition, can_transition,
  recover_on_startup, record_of,
}
use asgard_hl_basisstrategy.Transactions.Store.{state_of, accepts, refusal, transition_lem}
use asgard_hl_basisstrategy.Transactions.Paths.{path_to_confirmed}
use asgard_hl_basisstrategy.Transactions.Histories.{
  run, accepted_targets, confirmed_history, IsTerminal,
}

abbrev request : String → TransactionState → ℕ → Request
request id target now = record {
  intent_id = id;
  target_state = target;
  signature = none;
  metadata = some "{}";
  error = none;
  saved_at = now;
  returned_at = now;
}

-- Intent "a" is confirmed; intent "b" is started, and one call on each raises.
abbrev requests : List Request
requests =
    request "a" building 1
    ∷ request "b" built 2
    ∷ request "a" built 3
    ∷ request "a" signing 4
    ∷ request "b" building 5
    ∷ request "a" confirmed 6
    ∷ request "a" signed 7
    ∷ request "a" submitting 8
    ∷ request "a" submitted 9
    ∷ request "a" confirmed 10
    ∷ []

abbrev store : StateStore
store = run requests init_db

recover_test : recover_on_startup store ≡ record_of (request "b" building 5) 5 ∷ []
unfolding run init_db transition save_state get_state current_state can_transition
    recover_on_startup
recover_test = refl

transition_test :
    (transition (request "b" built 2) init_db).1
    ≡ raises (value_error "New transaction must start from BUILDING")
unfolding init_db transition current_state get_state
transition_test = refl

transition_lem_example :
    let q = request "b" built 11 in
    let (store', result) = transition q store in
    ((accepts (get_state "b" store) built ≡ true)
      × (result ≡ ok (record_of q 11))
      × (get_state "a" store'
          ≡ (if str_eq "b" "a" then some (record_of q 11) else get_state "a" store)))
    ⊎ ((accepts (get_state "b" store) built ≡ false)
        × (store' ≡ store)
        × (result ≡ raises (value_error (refusal (get_state "b" store)))))
transition_lem_example = transition_lem (request "b" built 11) "a" store

fresh : get_state "a" init_db ≡ none
unfolding get_state init_db
fresh = refl

done : state_of (get_state "a" (run requests init_db)) ≡ confirmed
unfolding run init_db transition save_state get_state current_state can_transition
done = refl

confirmed_history_example : accepted_targets "a" requests init_db ≡ path_to_confirmed idle
confirmed_history_example = confirmed_history "a" requests init_db fresh done

kept : get_state "a" store ≡ some (record_of (request "a" confirmed 10) 10)
unfolding run init_db transition save_state get_state current_state can_transition
kept = refl

is_final : IsTerminal confirmed
is_final = inl refl
