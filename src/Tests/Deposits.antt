-- ===== src/Tests/Deposits.antt =====
-- The reconciliation of a concrete table.
use asgard_hl_basisstrategy.Base.{
  ℕ, ◌+◌, ◌≡◌, refl, String, true, ◌&&◌, none, some, [], ◌∷◌, filter, length, Result, ok, lookup,
  update_row, distinct, if◌then◌else◌,
}
use asgard_hl_basisstrategy.Deposits.{
  DepositRow, Deposits, deposit, running, bridge_confirmed, is_stuck, credit, has_balance,
  reconcile_rows, reconcile_stuck_deposits,
}
use asgard_hl_basisstrategy.Deposits.Credits.{reconcile_stuck_deposits_lem}
use asgard_hl_basisstrategy.Tests.Decimals.{ℤ, whole, decimals}

abbrev row : ℕ → DepositRow decimals
row created = record {
  user_id = "u";
  direction = deposit;
  amount_usdc = whole 50;
  status = running;
  deposit_stage = some bridge_confirmed;
  created_at = created;
  completed_at = none;
}

abbrev table : Deposits decimals
table = ("old", row 0) ∷ ("new", row 400000000) ∷ []

abbrev balance : String → Result ℤ
balance id = ok (whole 1)

is_found : lookup "old" table ≡ some (row 0)
unfolding lookup
is_found = refl

is_distinct : distinct table ≡ true
unfolding lookup
is_distinct = refl

reconcile_test :
    (reconcile_stuck_deposits decimals balance 500000000 table).0
    ≡ ("old", credit decimals 500000000 (row 0)) ∷ ("new", row 400000000) ∷ []
unfolding reconcile_stuck_deposits reconcile_rows update_row
reconcile_test = refl

reconcile_stuck_deposits_lem_example :
    let (d', k) = reconcile_stuck_deposits decimals balance 500000000 table in
    (lookup "old" d'
      ≡ some (
          if is_stuck decimals 500000000 (row 0) && has_balance decimals (balance "old")
          then credit decimals 500000000 (row 0)
          else row 0))
    × (k.reconciled + k.still_stuck ≡ k.checked)
    × (k.checked ≡ length (filter (λ r. is_stuck decimals 500000000 r.1) table))
reconcile_stuck_deposits_lem_example =
    reconcile_stuck_deposits_lem decimals balance 500000000 "old" (row 0) table is_distinct is_found
