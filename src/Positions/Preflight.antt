-- ===== src/Positions/Preflight.antt =====
-- `run_preflight_checks` of the position manager and its checks, from what the venues answer. The text
-- of a failure is kept up to the exception that it quotes. `_simulate_opportunity` tries nothing.
use Prim.Native.String.{◌++◌ as str_append}
use asgard_hl_basisstrategy.Base.{
  message, ℕ, String, Bool, true, false, Option, none, some, List, [], ◌∷◌, ◌++◌, all, not,
  if◌then◌else◌, Numbers, le, Result, ok, raises,
}

module _ (N : Numbers) where
  open N use {Number, literal, mul, div, lt}

  -- `opportunity`, as far as the checks read and write it; a protocol is its number.
  pub record Candidate : Type 0 where
    pub deployed_capital_usd : Number
    pub current_is_negative : Bool
    pub predicted_is_negative : Option Bool
    pub selected_protocol : ℕ
    pub price_deviation : Option Number
    pub preflight_checks_passed : Bool

  -- The answers: the balances, the consensus with its deviation, whether the client of the market
  -- data could be made, and the best protocol.
  pub record Answers : Type 0 where
    pub sol_balance : Result Number
    pub usdc_balance : Result Number
    pub deposited_balance : Result Number
    pub consensus : Result (Bool × Number)
    pub market_data : Result (Unit {0})
    pub best_protocol : Result (Option ℕ)

  pub record PreflightResult : Type 0 where
    pub passed : Bool
    pub checks : List (String × Bool)
    pub errors : List String

  -- Half of the capital, less the buffer of 5%.
  unfoldable pub needed : Candidate → Number
  needed c = mul (div c.deployed_capital_usd (literal 2 0)) (literal 95 2)

  -- The check of the Hyperliquid balance, which passes when it cannot be read.
  unfoldable pub check_deposit : Candidate → Result Number → Bool
  check_deposit c (raises e) = true
  check_deposit c (ok balance) = le N (needed c) balance

  -- After the SOL balance: a failure to read the USDC balance passes at once.
  unfoldable pub check_usdc : Candidate → Answers → Result Number → Bool
  unfolding check_deposit
  check_usdc c a (raises e) = true
  check_usdc c a (ok balance) =
      if lt balance (needed c) then false else check_deposit c a.deposited_balance

  unfoldable pub check_wallet_balance : Candidate → Answers → Bool
  unfolding check_usdc
  check_wallet_balance c a = elim a.sol_balance [
    | raises e ↦ true
    | ok balance ↦ if lt balance (literal 1 1) then false else check_usdc c a a.usdc_balance
  ]

  unfoldable pub check_funding_validation : Candidate → Bool
  check_funding_validation c =
      if not c.current_is_negative
      then false
      else elim c.predicted_is_negative [ none ↦ true | some negative ↦ negative ]

  -- The best protocol replaces the selected one.
  unfoldable pub select_protocol : Candidate → Result (Option ℕ) → Candidate × Bool
  select_protocol c (raises e) = (c, true)
  select_protocol c (ok none) = (c, false)
  select_protocol c (ok (some p)) = (record c { selected_protocol = p }, true)

  -- The client of the market data is made outside the `try` of the search.
  unfoldable pub check_protocol_capacity :
      Candidate → Result (Unit {0}) → Result (Option ℕ) → Result (Candidate × Bool)
  unfolding select_protocol
  check_protocol_capacity c (raises e) best = raises e
  check_protocol_capacity c (ok made) best = ok (select_protocol c best)

  -- The price check, its error and the deviation that it stores.
  unfoldable pub check_price : Candidate → Result (Bool × Number) → Candidate × Bool × List String
  check_price c (raises e) =
      (c, false, str_append "Price consensus check failed: " (message e) ∷ [])
  check_price c (ok (within, deviation)) = (
    record c { price_deviation = some deviation },
    within,
    if within then [] else "Price deviation exceeds 0.5%" ∷ [],
  )

  abbrev pub error_unless : Bool → String → List String
  error_unless true text = []
  error_unless false text = text ∷ []

  -- The protocol check, with its error.
  unfoldable pub check_capacity : Candidate → Answers → Candidate × Bool × List String
  unfolding check_protocol_capacity
  check_capacity c a = elim (check_protocol_capacity c a.market_data a.best_protocol) [
    | raises e ↦ (c, false, str_append "Protocol capacity check failed: " (message e) ∷ [])
    | ok (c', capacity) ↦
        (c', capacity, error_unless capacity "Selected protocol lacks sufficient borrow capacity")
  ]

  unfoldable pub run_preflight_checks : Candidate → Answers → Candidate × PreflightResult
  unfolding check_wallet_balance check_funding_validation check_capacity check_price
  run_preflight_checks c a =
      let wallet = check_wallet_balance c a in
      let (c', price, price_errors) = check_price c a.consensus in
      let funding = check_funding_validation c' in
      let (c'', capacity, capacity_errors) = check_capacity c' a in
      let checks : List (String × Bool) =
        ("wallet_balance", wallet)
        ∷ ("price_consensus", price)
        ∷ ("funding_validation", funding)
        ∷ ("protocol_capacity", capacity)
        ∷ ("fee_market", true)
        ∷ ("opportunity_simulation", true)
        ∷ [] in
      let passed = all (λ e. e.1) checks in
      (
        if passed then record c'' { preflight_checks_passed = true } else c'',
        record {
          passed = passed;
          checks = checks;
          errors =
              error_unless wallet "Insufficient wallet balance on one or both chains"
              ++ price_errors
              ++ error_unless funding "Funding rate validation failed (not negative)"
              ++ capacity_errors;
        },
      )
