-- ===== src/Transactions/Recovery.antt =====
-- Recovery after a restart, and the primary key of the table.
use asgard_hl_basisstrategy.Base.{
  String, ◌≡◌, ◌⊎◌, refl, ap, fun_ext, All-filter, Bool, true, false, none, some, List, [], ◌∷◌,
  ◌++◌, filter, any, All, not, str-eq_iff, arith, Bool-cases, any-append, inl, inr,
}
use asgard_hl_basisstrategy.Transactions.{
  TransactionRecord, StateStore, Request, has_id, fetch_one, init_db, save_state, get_state,
  can_transition, transition, record_of, is_in, incomplete_states, recover_on_startup,
}
use asgard_hl_basisstrategy.Transactions.Store.{accepts, transition-accepts, transition-refuses}
use asgard_hl_basisstrategy.Transactions.Paths.{all_states, incomplete-can_transition}
use asgard_hl_basisstrategy.Transactions.Histories.{run}

-- No two rows have one key.
abbrev pub Unique : List TransactionRecord → Type 0
Unique [] = Unit {0}
Unique (r ∷ rs) = (any (has_id r.intent_id) rs ≡ false) × Unique rs

any-filter :
    (id j : String) (rs : List TransactionRecord)
    → any (has_id j) rs ≡ false
    → any (has_id j) (filter (λ x. not (has_id id x)) rs) ≡ false
any-filter id j [] h = refl
any-filter id j (r ∷ rs) h = ground (arith, any-filter id j rs)

any-filter_self :
    (id : String) (rs : List TransactionRecord)
    → any (has_id id) (filter (λ x. not (has_id id x)) rs) ≡ false
any-filter_self id [] = refl
any-filter_self id (r ∷ rs) = ground (arith, any-filter_self id rs)

Unique-filter :
    (id : String) (rs : List TransactionRecord)
    → Unique rs
    → Unique (filter (λ x. not (has_id id x)) rs)
Unique-filter id [] u = tt
Unique-filter id (r ∷ rs) u =
    ground (arith, Unique-filter id rs u.1, any-filter id r.intent_id rs u.0)

Unique-append :
    (rs : List TransactionRecord) (r : TransactionRecord)
    → Unique rs
    → any (has_id r.intent_id) rs ≡ false
    → Unique (rs ++ r ∷ [])
Unique-append [] r u h = (refl, tt)
Unique-append (x ∷ rs) r u h = ground (
  arith,
  Unique-append rs r u.1,
  any-append (has_id x.intent_id) rs (r ∷ []),
  str-eq_iff x.intent_id r.intent_id,
  str-eq_iff r.intent_id x.intent_id,
)

save_state-Unique :
    (r : TransactionRecord) (store : StateStore)
    → Unique store.rows
    → Unique (save_state r store).rows
unfolding save_state
save_state-Unique r store u =
    Unique-append (filter (λ x. not (has_id r.intent_id x)) store.rows) r
      (Unique-filter r.intent_id store.rows u) (any-filter_self r.intent_id store.rows)

run-Unique :
    (qs : List Request) (store : StateStore) → Unique store.rows → Unique (run qs store).rows
unfolding run
run-Unique [] store u = u
run-Unique (q ∷ qs) store u = run-Unique qs (transition q store).0 (go (Bool-cases _))
  where
    go :
        (accepts (get_state q.intent_id store) q.target_state ≡ true)
          ⊎ (accepts (get_state q.intent_id store) q.target_state ≡ false)
        → Unique (transition q store).0.rows
    go (inl e) =
        rw (transition-accepts q store e) (save_state-Unique (record_of q q.saved_at) store u)
    go (inr e) = rw (transition-refuses q store e) u

find_none :
    (id : String) (rs : List TransactionRecord)
    → any (has_id id) rs ≡ false
    → fetch_one (filter (has_id id) rs) ≡ none
find_none id [] h = refl
find_none id (r ∷ rs) h = ground (arith, find_none id rs)

-- Each listed row is the one that a query by its key finds.
abbrev Finds : List TransactionRecord → List TransactionRecord → Type 0
Finds rows rs = All (λ r. fetch_one (filter (has_id r.intent_id) rows) ≡ some r) rs

Finds-cons :
    (x : TransactionRecord) (rows rs : List TransactionRecord)
    → any (has_id x.intent_id) rs ≡ false
    → Finds rows rs
    → Finds (x ∷ rows) rs
Finds-cons x rows [] h f = tt
Finds-cons x rows (r ∷ rs) h f = ground (
  arith,
  Finds-cons x rows rs,
  str-eq_iff x.intent_id r.intent_id,
  str-eq_iff r.intent_id x.intent_id,
)

Unique-Finds : (rows : List TransactionRecord) → Unique rows → Finds rows rows
Unique-Finds [] u = tt
Unique-Finds (x ∷ rows) u = (
  ground (arith, str-eq_iff x.intent_id x.intent_id),
  Finds-cons x rows rows u.0 (Unique-Finds rows u.1),
)

-- After any calls on an empty table, a restart reports exactly the rows whose state some transition
-- leaves, in the order of the table, and each reported record is the one that `get_state` returns
-- for its key.
pub recover_on_startup_lem :
    (qs : List Request)
    → let store = run qs init_db in
      (recover_on_startup store ≡ filter (λ r. any (can_transition r.state) all_states) store.rows)
      × All (λ r. get_state r.intent_id store ≡ some r) (recover_on_startup store)
unfolding recover_on_startup get_state
recover_on_startup_lem qs =
    let store = run qs init_db in
    let unique : Unique store.rows = run-Unique qs init_db (unfold init_db in tt) in
    (
      ap (λ (p : TransactionRecord → Bool). filter p store.rows)
          (fun_ext (λ r. incomplete-can_transition r.state)),
      All-filter _ (λ r. is_in r.state incomplete_states) store.rows
          (Unique-Finds store.rows unique),
    )
