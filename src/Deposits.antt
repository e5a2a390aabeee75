-- ===== src/Deposits.antt =====
-- bot/services/deposit_reconciler.py: `reconcile_stuck_deposits` over the table deposit_history, a
-- dict from its primary key in the order of creation, without the columns that the code does not
-- use. The balance that Hyperliquid answers while a row is checked, or an exception on the way to
-- it, is an argument. Times are microseconds; alerts are logging.
pub mod Credits
use asgard_hl_basisstrategy.Base.{
  ℕ, ◌+◌, ◌-◌, ◌*◌, String, Bool, true, false, ◌&&◌, Option, none, some, List, [], ◌∷◌, filter,
  length, ltb, Numbers, zero_number, Result, ok, raises, update_row, if◌then◌else◌,
}

pub data Direction : Type 0 where
  deposit withdraw wallet_transfer : Direction

pub data DepositStage : Type 0 where
  initiated bridge_confirmed hl_credited : DepositStage

pub data DepositStatus : Type 0 where
  pending running completed failed : DepositStatus

abbrev pub is_deposit : Direction → Bool
is_deposit deposit = true
is_deposit withdraw = false
is_deposit wallet_transfer = false

-- `deposit_stage = 'bridge_confirmed'`, which a NULL fails.
abbrev pub is_confirmed : Option DepositStage → Bool
is_confirmed none = false
is_confirmed (some initiated) = false
is_confirmed (some bridge_confirmed) = true
is_confirmed (some hl_credited) = false

module _ (N : Numbers) where
  open N use {Number, lt}

  pub record DepositRow : Type 0 where
    pub user_id : String
    pub direction : Direction
    pub amount_usdc : Number
    pub status : DepositStatus
    pub deposit_stage : Option DepositStage
    pub created_at : ℕ
    pub completed_at : Option ℕ

  abbrev pub Deposits : Type 0
  Deposits = List (String × DepositRow)

  -- STUCK_THRESHOLD_MINUTES before now.
  abbrev pub is_stuck : ℕ → DepositRow → Bool
  is_stuck now r =
      is_deposit r.direction && is_confirmed r.deposit_stage && ltb (r.created_at + 300000000) now

  -- `WHERE id = $1 AND deposit_stage = 'bridge_confirmed'`
  abbrev pub credit : ℕ → DepositRow → DepositRow
  credit now r =
      if is_confirmed r.deposit_stage
      then record r {
        deposit_stage = some hl_credited;
        status = completed;
        completed_at = some now;
      }
      else r

  pub record Summary : Type 0 where
    pub checked : ℕ
    pub reconciled : ℕ
    pub still_stuck : ℕ

  abbrev pub has_balance : Result Number → Bool
  has_balance (raises e) = false
  has_balance (ok balance) = lt (zero_number N) balance

  -- The loop over the rows that were read: a balance of 0 and an exception count as still stuck.
  unfoldable pub reconcile_rows :
      (String → Result Number)
      → ℕ
      → List (String × DepositRow)
      → Summary
      → Deposits
      → Deposits × Summary
  reconcile_rows balance now [] k d = (d, k)
  reconcile_rows balance now ((id, r) ∷ rows) k d =
      let credited = has_balance (balance id) in
      reconcile_rows balance now rows
        (if credited
          then record k { reconciled = k.reconciled + 1 }
          else record k { still_stuck = k.still_stuck + 1 })
        (if credited then update_row id (credit now) d else d)

  unfoldable pub reconcile_stuck_deposits :
      (String → Result Number) → ℕ → Deposits → Deposits × Summary
  unfolding reconcile_rows
  reconcile_stuck_deposits balance now d =
      let rows = filter (λ r. is_stuck now r.1) d in
      reconcile_rows balance now rows
        (record { checked = length rows; reconciled = 0; still_stuck = 0 }) d
