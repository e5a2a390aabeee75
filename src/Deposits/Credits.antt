-- ===== src/Deposits/Credits.antt =====
-- Which deposits a reconciliation credits.
use asgard_hl_basisstrategy.Base.{
  ℕ, ◌+◌, String, true, ◌&&◌, ◌≡◌, refl, none, some, List, [], ◌∷◌, filter, length, Numbers, Result,
  lookup, update_row, lookup-update_row, distinct, distinct-filter, lookup-filter, str-eq_iff,
  if◌then◌else◌, arith,
}
use asgard_hl_basisstrategy.Deposits.{
  DepositRow, Deposits, Summary, is_stuck, credit, has_balance, reconcile_rows,
  reconcile_stuck_deposits,
}

module _ (N : Numbers) where
  open N use {Number}

  reconcile_rows-counts :
      (balance : String → Result Number) (now : ℕ) (rows : List (String × DepositRow N))
      (k : Summary N) (d : Deposits N)
      → let k' = (reconcile_rows N balance now rows k d).1 in
        (k'.checked ≡ k.checked)
        × (k'.reconciled + k'.still_stuck ≡ k.reconciled + k.still_stuck + length rows)
  unfolding reconcile_rows
  reconcile_rows-counts balance now [] k d = ground arith
  reconcile_rows-counts balance now ((id, r) ∷ rows) k d =
      let credited = has_balance N (balance id) in
      let k' : Summary N =
        if credited
        then record k { reconciled = k.reconciled + 1 }
        else record k { still_stuck = k.still_stuck + 1 } in
      ground (
        arith,
        reconcile_rows-counts balance now rows k'
            (if credited then update_row id (credit N now) d else d),
      )

  reconcile_rows-absent :
      (balance : String → Result Number) (now : ℕ) (j : String)
      (rows : List (String × DepositRow N)) (k : Summary N) (d : Deposits N)
      → lookup j rows ≡ none
      → lookup j (reconcile_rows N balance now rows k d).0 ≡ lookup j d
  unfolding reconcile_rows lookup
  reconcile_rows-absent balance now j [] k d h = refl
  reconcile_rows-absent balance now j ((id, r) ∷ rows) k d h =
      let credited = has_balance N (balance id) in
      let k' : Summary N =
        if credited
        then record k { reconciled = k.reconciled + 1 }
        else record k { still_stuck = k.still_stuck + 1 } in
      ground (
        arith,
        lookup-update_row id j (credit N now) d,
        reconcile_rows-absent balance now j rows k'
            (if credited then update_row id (credit N now) d else d),
      )

  reconcile_rows-present :
      (balance : String → Result Number) (now : ℕ) (j : String) (row : DepositRow N)
      (rows : List (String × DepositRow N)) (k : Summary N) (d : Deposits N)
      → distinct rows ≡ true
      → lookup j rows ≡ some row
      → lookup j d ≡ some row
      → lookup j (reconcile_rows N balance now rows k d).0
        ≡ some (if has_balance N (balance j) then credit N now row else row)
  unfolding reconcile_rows lookup
  reconcile_rows-present balance now j row [] k d u h s = absurd (ground arith)
  reconcile_rows-present balance now j row ((id, r) ∷ rows) k d u h s =
      let credited = has_balance N (balance id) in
      let k' : Summary N =
        if credited
        then record k { reconciled = k.reconciled + 1 }
        else record k { still_stuck = k.still_stuck + 1 } in
      let d' = if credited then update_row id (credit N now) d else d in
      ground (
        arith,
        lookup-update_row id j (credit N now) d,
        reconcile_rows-absent balance now j rows k' d',
        reconcile_rows-present balance now j row rows k' d',
        str-eq_iff id j,
      )

  -- In a table with distinct ids, a reconciliation credits exactly the deposits that are confirmed
  -- on the bridge, older than five minutes and answered with a balance above 0, changes no other row,
  -- and counts each row that it checked once, as reconciled or as still stuck.
  pub reconcile_stuck_deposits_lem :
      (balance : String → Result Number) (now : ℕ) (j : String) (row : DepositRow N)
      (d : Deposits N)
      → distinct d ≡ true
      → lookup j d ≡ some row
      → let (d', k) = reconcile_stuck_deposits N balance now d in
        (lookup j d'
          ≡ some
              (if is_stuck N now row && has_balance N (balance j) then credit N now row else row))
        × (k.reconciled + k.still_stuck ≡ k.checked)
        × (k.checked ≡ length (filter (λ r. is_stuck N now r.1) d))
  unfolding reconcile_stuck_deposits
  reconcile_stuck_deposits_lem balance now j row d u s =
      let rows = filter (λ r. is_stuck N now r.1) d in
      let k : Summary N = record { checked = length rows; reconciled = 0; still_stuck = 0 } in
      ground (
        arith,
        s,
        reconcile_rows-counts balance now rows k d,
        lookup-filter j (is_stuck N now) d u,
        distinct-filter (is_stuck N now) d u,
        reconcile_rows-absent balance now j rows k d,
        reconcile_rows-present balance now j row rows k d,
      )
