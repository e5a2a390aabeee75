-- ===== src/Security.antt =====
-- shared/security/transaction_validator.py: class TransactionValidator. A set of texts is the list of
-- its members. A dict that a caller gives enters by the keys that the code reads, a value of another
-- type than the code expects as a missing one, and a reason is kept up to the values that it quotes.
pub mod Allowlists
pub mod Withdrawals
use Prim.Native.Char.{Char, code}
use Prim.Native.String.{[] as empty, ◌∷◌ as cons}
use asgard_hl_basisstrategy.Base.{
  ℕ, String, Bool, true, false, ◌&&◌, Option, none, some, List, [], ◌∷◌, ◌++◌, map, filter, any,
  not, ◌==◌, str_eq, if◌then◌else◌,
}

pub data ValidationResult : Type 0 where
  valid invalid_program invalid_withdrawal invalid_signature : ValidationResult
  invalid_chain_id invalid_domain unknown_transaction : ValidationResult

pub record TransactionValidation : Type 0 where
  pub is_valid : Bool
  pub result : ValidationResult
  pub reason : Option String
  pub programs_checked : List String
  pub rejected_programs : List String

pub record TransactionValidator : Type 0 where
  pub allowed_solana_programs : List String
  pub allowed_hyperliquid_contracts : List String
  pub authorized_withdrawal_solana : Option String
  pub authorized_withdrawal_hyperliquid : Option String
  pub arbitrum_chain_id : ℕ

abbrev pub default_solana_programs : List String
default_solana_programs =
    "MFv2hWf31Z9kbCa1snEPYcvnvbsWBcWAjjaTzMX2Q9" ∷ "KLend2g3cP87fffoy8q1mQqGKjrxFtd9BKE1rM5cCp"
    ∷ "So1endDqUFYhgUNLA3P8wDxzDEaF1ZpCtiE2YfLJ1" ∷ "dRiftyHA39MWEi3m9aunc5MzRF1JYuBsbn6VPcn33UH"
    ∷ "AsgardXXXXXXXXXXXXXXXXXXXXXXXXXXXXXXXXXXXXXXX" ∷ []

abbrev pub default_hyperliquid_contracts : List String
default_hyperliquid_contracts = "0x0000000000000000000000000000000000000000" ∷ []

-- `set(given or default)`: a missing and an empty list fall back to the default.
abbrev pub given_or : Option (List String) → List String → List String
given_or none default_set = default_set
given_or (some []) default_set = default_set
given_or (some (x ∷ xs)) default_set = x ∷ xs

unfoldable pub init :
    Option (List String)
    → Option (List String)
    → Option String
    → Option String
    → ℕ
    → TransactionValidator
init programs contracts solana hyperliquid chain_id = record {
  allowed_solana_programs = given_or programs default_solana_programs;
  allowed_hyperliquid_contracts = given_or contracts default_hyperliquid_contracts;
  authorized_withdrawal_solana = solana;
  authorized_withdrawal_hyperliquid = hyperliquid;
  arbitrum_chain_id = chain_id;
}

-- `x in xs`
abbrev pub is_member : String → List String → Bool
is_member x xs = any (λ y. str_eq y x) xs

-- `TransactionValidation(...)` without programs.
abbrev pub answer : Bool → ValidationResult → String → TransactionValidation
answer ok result reason = record {
  is_valid = ok;
  result = result;
  reason = some reason;
  programs_checked = [];
  rejected_programs = [];
}

unfoldable pub validate_solana_program : String → TransactionValidator → Bool
validate_solana_program p v = is_member p v.allowed_solana_programs

abbrev pub is_empty : List String → Bool
is_empty [] = true
is_empty (x ∷ xs) = false

unfoldable pub validate_solana_programs : List String → TransactionValidator → TransactionValidation
unfolding validate_solana_program
validate_solana_programs ids v =
    let rejected = filter (λ p. not (validate_solana_program p v)) ids in
    if not (is_empty rejected)
    then record {
      is_valid = false;
      result = invalid_program;
      reason = some "Unknown programs";
      programs_checked = ids;
      rejected_programs = rejected;
    }
    else record {
      is_valid = true;
      result = valid;
      reason = none;
      programs_checked = ids;
      rejected_programs = [];
    }

unfoldable pub validate_solana_withdrawal : String → TransactionValidator → TransactionValidation
validate_solana_withdrawal destination v = elim v.authorized_withdrawal_solana [
  | none ↦ answer false invalid_withdrawal "No authorized withdrawal address configured"
  | some authorized ↦
      if not (str_eq destination authorized)
      then answer false invalid_withdrawal "Unauthorized withdrawal destination"
      else answer true valid "Withdrawal to authorized address"
]

-- `domain.get("chainId")` and `domain.get("name")`.
pub record Domain : Type 0 where
  pub chain_id : Option ℕ
  pub name : Option String

abbrev pub is_number : Option ℕ → ℕ → Bool
is_number none n = false
is_number (some m) n = m == n

abbrev pub is_text : Option String → String → Bool
is_text none t = false
is_text (some s) t = str_eq s t

unfoldable pub validate_hyperliquid_domain : Domain → TransactionValidator → TransactionValidation
validate_hyperliquid_domain d v =
    if not (is_number d.chain_id v.arbitrum_chain_id)
    then answer false invalid_chain_id "Invalid chain ID"
    else if not (is_text d.name "Hyperliquid")
    then answer false invalid_domain "Invalid domain name"
    else answer true valid "EIP-712 domain valid"

-- `str.lower` on ASCII, which addresses are written in.
abbrev uppercase : List (ℕ × Char)
uppercase =
    (65, "a")
    ∷ (66, "b")
    ∷ (67, "c")
    ∷ (68, "d")
    ∷ (69, "e")
    ∷ (70, "f")
    ∷ (71, "g")
    ∷ (72, "h")
    ∷ (73, "i")
    ∷ (74, "j")
    ∷ (75, "k")
    ∷ (76, "l")
    ∷ (77, "m")
    ∷ (78, "n")
    ∷ (79, "o")
    ∷ (80, "p")
    ∷ (81, "q")
    ∷ (82, "r")
    ∷ (83, "s")
    ∷ (84, "t")
    ∷ (85, "u")
    ∷ (86, "v")
    ∷ (87, "w")
    ∷ (88, "x")
    ∷ (89, "y")
    ∷ (90, "z")
    ∷ []

abbrev pub lower_in : List (ℕ × Char) → Char → Char
lower_in [] c = c
lower_in ((n, small) ∷ table) c = if code c == n then small else lower_in table c

unfoldable pub lower : String → String
lower empty = empty
lower (cons c s) = cons (lower_in uppercase c) (lower s)

unfoldable pub validate_hyperliquid_withdrawal :
    String → TransactionValidator → TransactionValidation
unfolding lower
validate_hyperliquid_withdrawal destination v = elim v.authorized_withdrawal_hyperliquid [
  | none ↦ answer false invalid_withdrawal "No authorized withdrawal address configured"
  | some authorized ↦
      if not (str_eq (lower destination) (lower authorized))
      then answer false invalid_withdrawal "Unauthorized withdrawal destination"
      else answer true valid "Withdrawal to authorized address"
]

abbrev pub allowed_actions : List String
allowed_actions = "order" ∷ "updateLeverage" ∷ "cancel" ∷ "withdraw" ∷ []

-- A truthy `action_params.get("destination")`.
abbrev pub given_text : Option String → Option String
given_text none = none
given_text (some s) = if str_eq s "" then none else some s

unfoldable pub validate_hyperliquid_action :
    String → Option String → TransactionValidator → TransactionValidation
unfolding validate_hyperliquid_withdrawal
validate_hyperliquid_action action destination v =
    if not (is_member action allowed_actions)
    then answer false unknown_transaction "Unknown action type"
    else elim (if str_eq action "withdraw" then given_text destination else none) [
      | some d ↦ validate_hyperliquid_withdrawal d v
      | none ↦ answer true valid "Action type valid"
    ]

-- `set.add` and `set.discard`.
abbrev pub set_add : String → List String → List String
set_add x xs = if is_member x xs then xs else xs ++ x ∷ []

abbrev pub set_discard : String → List String → List String
set_discard x xs = filter (λ y. not (str_eq y x)) xs

unfoldable pub add_allowed_solana_program : String → TransactionValidator → TransactionValidator
add_allowed_solana_program p v = record v {
  allowed_solana_programs = set_add p v.allowed_solana_programs;
}

unfoldable pub remove_allowed_solana_program : String → TransactionValidator → TransactionValidator
remove_allowed_solana_program p v = record v {
  allowed_solana_programs = set_discard p v.allowed_solana_programs;
}

unfoldable pub add_allowed_hyperliquid_contract :
    String → TransactionValidator → TransactionValidator
add_allowed_hyperliquid_contract c v = record v {
  allowed_hyperliquid_contracts = set_add c v.allowed_hyperliquid_contracts;
}

-- A transaction of a batch: `chain`, `program_ids` and `domain`, with their defaults.
pub record BatchTransaction : Type 0 where
  pub chain : Option String
  pub program_ids : List String
  pub domain : Domain

unfoldable pub validate_one : TransactionValidator → BatchTransaction → TransactionValidation
validate_one v tx =
    if is_text tx.chain "solana"
    then validate_solana_programs tx.program_ids v
    else if is_text tx.chain "hyperliquid"
    then validate_hyperliquid_domain tx.domain v
    else answer false unknown_transaction "Unknown chain"

unfoldable pub validate_transaction_batch :
    List BatchTransaction → TransactionValidator → List TransactionValidation
unfolding validate_one
validate_transaction_batch txs v = map (validate_one v) txs
