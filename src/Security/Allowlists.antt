-- ===== src/Security/Allowlists.antt =====
-- What a list of Solana programs is checked against.
use asgard_hl_basisstrategy.Base.{
  String, ◌≡◌, refl, Bool, List, [], ◌∷◌, filter, all, not, if◌then◌else◌, arith,
}
use asgard_hl_basisstrategy.Security.{
  TransactionValidator, valid, invalid_program, is_empty, validate_solana_program,
  validate_solana_programs,
}

is_empty-filter :
    (f : String → Bool) (xs : List String) → is_empty (filter (λ x. not (f x)) xs) ≡ all f xs
is_empty-filter f [] = refl
is_empty-filter f (x ∷ xs) = ground (arith, is_empty-filter f xs)

-- A list of programs is valid exactly when every one is allowed, and INVALID_PROGRAM otherwise; the
-- rejected programs are those that are not allowed, in order.
pub validate_solana_programs_lem :
    (ids : List String) (v : TransactionValidator)
    → let r = validate_solana_programs ids v in
      (r.is_valid ≡ all (λ p. validate_solana_program p v) ids)
      × (r.result ≡ (if all (λ p. validate_solana_program p v) ids then valid else invalid_program))
      × (r.rejected_programs ≡ filter (λ p. not (validate_solana_program p v)) ids)
unfolding validate_solana_programs
validate_solana_programs_lem ids v =
    ground (arith, is_empty-filter (λ p. validate_solana_program p v) ids)
