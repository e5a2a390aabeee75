-- ===== src/Tests/Security.antt =====
-- The transaction validator on concrete addresses.
use asgard_hl_basisstrategy.Base.{◌≡◌, refl, true, false, none, some, [], ◌∷◌}
use asgard_hl_basisstrategy.Security.{
  TransactionValidator, init, lower, validate_solana_withdrawal, validate_hyperliquid_withdrawal,
  validate_hyperliquid_action,
}

abbrev validator : TransactionValidator
validator = init (some ("A" ∷ "B" ∷ [])) none (some "Sol1") (some "0xAb") 42161

case_test : (validate_hyperliquid_withdrawal "0XaB" validator).is_valid ≡ true
unfolding init validate_hyperliquid_withdrawal lower
case_test = refl

solana_case_test : (validate_solana_withdrawal "SOL1" validator).is_valid ≡ false
unfolding init validate_solana_withdrawal
solana_case_test = refl

no_destination_test : (validate_hyperliquid_action "withdraw" none validator).is_valid ≡ true
unfolding init validate_hyperliquid_action
no_destination_test = refl
