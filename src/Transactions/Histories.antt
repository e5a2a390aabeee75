-- ===== src/Transactions/Histories.antt =====
-- Any sequence of `transition` calls, on any keys, whether each is accepted or raises.
use asgard_hl_basisstrategy.Base.{
  String, ◌≡◌, refl, subst, ap, ◌∙◌, ◌⊎◌, inl, inr, Bool, true, false, ◌&&◌, Option, none, some,
  List, [], ◌∷◌, str_eq, str-eq_iff, if◌then◌else◌, Result, ok, raises, arith, Bool-cases,
}
use asgard_hl_basisstrategy.Transactions.{
  TransactionState, TransactionRecord, StateStore, Request, idle, confirmed, failed, get_state,
  can_transition, transition, record_of,
}
use asgard_hl_basisstrategy.Transactions.Store.{
  state_of, accepts, transition-accepts, transition-refuses, get_state-save_state,
}
use asgard_hl_basisstrategy.Transactions.Paths.{
  Chain, Chain-confirmed, path_to_confirmed, confirmed-final, failed-final,
}

unfoldable pub run : List Request → StateStore → StateStore
run [] store = store
run (q ∷ qs) store = run qs (transition q store).0

abbrev pub is_ok {ℓ} : {A : Type ℓ} → Result A → Bool
is_ok (ok a) = true
is_ok (raises e) = false

-- The targets of the calls on one key that did not raise, in order.
unfoldable pub accepted_targets : String → List Request → StateStore → List TransactionState
accepted_targets id [] store = []
accepted_targets id (q ∷ qs) store =
    let rest = accepted_targets id qs (transition q store).0 in
    if str_eq q.intent_id id && is_ok (transition q store).1 then q.target_state ∷ rest else rest

accepts-can_transition :
    (o : Option TransactionRecord) (t : TransactionState)
    → accepts o t ≡ true
    → can_transition (state_of o) t ≡ true
unfolding can_transition
accepts-can_transition none t h = ground arith
accepts-can_transition (some r) t h = h

-- What one call does to one key: it moves it along a transition and reports it, or leaves it.
abbrev Moves :
    Option TransactionRecord → TransactionState → Option TransactionRecord → Bool → Type 0
Moves o t o' reported =
    ((reported ≡ true) × (can_transition (state_of o) t ≡ true) × (state_of o' ≡ t))
    ⊎ ((reported ≡ false) × (o' ≡ o))

transition-Moves :
    (q : Request) (id : String) (store : StateStore)
    → let (store', result) = transition q store in
      Moves
        (get_state id store)
        q.target_state
        (get_state id store')
        (str_eq q.intent_id id && is_ok result)
transition-Moves q id store =
    elim (Bool-cases (accepts (get_state q.intent_id store) q.target_state)) [
      | inl yes_ ↦ rw (transition-accepts q store yes_) (
          ground (
            arith,
            get_state-save_state id (record_of q q.saved_at) store,
            str-eq_iff q.intent_id id,
            ap (λ (k : String). get_state k store),
            accepts-can_transition (get_state id store) q.target_state,
            accepts-can_transition (get_state q.intent_id store) q.target_state,
          ))
      | inr no_ ↦ rw (transition-refuses q store no_) (ground arith)
    ]

-- The calls on a key that did not raise form a path from its first state to its last.
pub history_chain :
    (id : String) (qs : List Request) (store : StateStore)
    → Chain
        (state_of (get_state id store))
        (accepted_targets id qs store)
        (state_of (get_state id (run qs store)))
unfolding run accepted_targets
history_chain id [] store = refl
history_chain id (q ∷ qs) store =
    let rest = history_chain id qs (transition q store).0 in
    elim (transition-Moves q id store) [
      | inl (reported, allowed, moved) ↦ rw reported (
        allowed,
        subst
            (λ s.
              Chain s (accepted_targets id qs (transition q store).0)
                (state_of (get_state id (run qs (transition q store).0))))
            moved rest,
      )
      | inr (silent, same) ↦ rw silent (
          subst
            (λ o.
              Chain (state_of o) (accepted_targets id qs (transition q store).0)
                (state_of (get_state id (run qs (transition q store).0))))
            same rest)
    ]

-- If a key without a record ends CONFIRMED after any calls on any keys, the calls on it that did
-- not raise were to BUILDING, BUILT, SIGNING, SIGNED, SUBMITTING, SUBMITTED and CONFIRMED, in this
-- order and once each.
pub confirmed_history :
    (id : String) (qs : List Request) (store : StateStore)
    → get_state id store ≡ none
    → state_of (get_state id (run qs store)) ≡ confirmed
    → accepted_targets id qs store ≡ path_to_confirmed idle
confirmed_history id qs store fresh done = Chain-confirmed (accepted_targets id qs store) (
    subst (λ s. Chain s (accepted_targets id qs store) confirmed) (ap state_of fresh)
      (subst (Chain (state_of (get_state id store)) (accepted_targets id qs store)) done
        (history_chain id qs store)))

-- CONFIRMED and FAILED.
abbrev pub IsTerminal : TransactionState → Type 0
IsTerminal s = (s ≡ confirmed) ⊎ (s ≡ failed)

terminal-final : (s t : TransactionState) → IsTerminal s → can_transition s t ≡ false
terminal-final s t (inl e) = rw e (confirmed-final t)
terminal-final s t (inr e) = rw e (failed-final t)

transition_terminal :
    (q : Request) (id : String) (store : StateStore) {r : TransactionRecord}
    → get_state id store ≡ some r
    → IsTerminal r.state
    → get_state id (transition q store).0 ≡ some r
transition_terminal q id store {r} e final = elim (transition-Moves q id store) [
  | inl (reported, allowed, moved) ↦
      let barred = terminal-final r.state q.target_state final in
      let allowed' : can_transition r.state q.target_state ≡ true = rw e at allowed in cc
  | inr (silent, same) ↦ same ∙ e
]

-- Once the record of a key is CONFIRMED or FAILED, no calls, on any keys, change anything in it,
-- and none on this key is accepted.
pub terminal_history :
    (id : String) (qs : List Request) (store : StateStore) {r : TransactionRecord}
    → get_state id store ≡ some r
    → IsTerminal r.state
    → (get_state id (run qs store) ≡ some r) × (accepted_targets id qs store ≡ [])
unfolding run accepted_targets
terminal_history id [] store e final = (e, refl)
terminal_history id (q ∷ qs) store {r} e final =
    let kept = transition_terminal q id store e final in
    let rest = terminal_history id qs (transition q store).0 kept final in
    elim (transition-Moves q id store) [
      | inl (reported, allowed, moved) ↦
          let barred = terminal-final r.state q.target_state final in
          let allowed' : can_transition r.state q.target_state ≡ true = rw e at allowed in cc
      | inr (silent, same) ↦ (rest.0, rw silent rest.1)
    ]
