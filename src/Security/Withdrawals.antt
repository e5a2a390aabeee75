-- ===== src/Security/Withdrawals.antt =====
-- Where a withdrawal may go, by itself and as an action.
use asgard_hl_basisstrategy.Base.{
  String, ◌≡◌, Bool, true, false, ◌&&◌, Option, none, some, not, str_eq, if◌then◌else◌, arith,
  Option-cases, inl, inr,
}
use asgard_hl_basisstrategy.Security.{
  TransactionValidator, valid, invalid_withdrawal, unknown_transaction, is_member, allowed_actions,
  given_text, lower, validate_solana_withdrawal, validate_hyperliquid_withdrawal,
  validate_hyperliquid_action,
}

-- The configured address of each venue, and a destination that reaches it.
abbrev pub reaches : (String → String) → Option String → String → Bool
reaches normalise none destination = false
reaches normalise (some authorized) destination =
    str_eq (normalise destination) (normalise authorized)

-- A withdrawal is valid exactly when an address is configured for the venue and the destination is
-- that address, on Hyperliquid up to the case of ASCII letters; otherwise it is INVALID_WITHDRAWAL.
pub validate_withdrawals_lem :
    (destination : String) (v : TransactionValidator)
    → let solana = reaches (λ s. s) v.authorized_withdrawal_solana destination in
      let hyperliquid = reaches lower v.authorized_withdrawal_hyperliquid destination in
      let r = validate_solana_withdrawal destination v in
      let q = validate_hyperliquid_withdrawal destination v in
      (r.is_valid ≡ solana)
      × (r.result ≡ (if solana then valid else invalid_withdrawal))
      × (q.is_valid ≡ hyperliquid)
      × (q.result ≡ (if hyperliquid then valid else invalid_withdrawal))
unfolding validate_solana_withdrawal validate_hyperliquid_withdrawal
validate_withdrawals_lem destination v = ground arith

-- A withdraw action that names a destination.
abbrev pub withdraws_to : String → Option String → Option String
withdraws_to action destination = if str_eq action "withdraw" then given_text destination else none

abbrev pub withdraws_well : TransactionValidator → Option String → Bool
withdraws_well v none = true
withdraws_well v (some d) = reaches lower v.authorized_withdrawal_hyperliquid d

-- An action is valid exactly when its type is one of the four allowed ones and, if it is a withdraw
-- with a destination that is not empty, the destination is the authorized one; so a withdraw
-- without a destination is valid whatever is authorized. An unknown type is UNKNOWN_TRANSACTION.
pub validate_hyperliquid_action_lem :
    (action : String) (destination : Option String) (v : TransactionValidator)
    → let r = validate_hyperliquid_action action destination v in
      let known = is_member action allowed_actions in
      (r.is_valid ≡ (known && withdraws_well v (withdraws_to action destination)))
      × (r.result ≡ (
          if not known
          then unknown_transaction
          else if withdraws_well v (withdraws_to action destination)
          then valid
          else invalid_withdrawal))
unfolding validate_hyperliquid_action validate_hyperliquid_withdrawal
validate_hyperliquid_action_lem action destination v =
    elim (Option-cases (withdraws_to action destination)) [
      | inl missing ↦ rw (missing, validate_hyperliquid_action) (ground arith)
      | inr (d, given) ↦ rw (given, validate_hyperliquid_action) (ground arith)
    ]
