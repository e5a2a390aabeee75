-- ===== src/Consensus.antt =====
-- bot/core/price_consensus.py: class PriceConsensus. What the clients answer is an argument: the
-- names of Hyperliquid's universe with its contexts, and Asgard's markets, which the fallback reads
-- again. A price in an answer is a number, and a missing list is empty.
pub mod Sources
use Prim.Native.String.{[] as empty, ◌∷◌ as cons}
use asgard_hl_basisstrategy.Base.{
  ℕ, zero, suc, ◌+◌, String, Bool, true, false, ◌&&◌, ◌||◌, not, Option, none, some, List, [], ◌∷◌,
  str_eq, Numbers, zero_number, number_or, le, Result, ok, raises, exception, value_error,
  if◌then◌else◌,
}
use asgard_hl_basisstrategy.RateLimit.{starts_with}
use asgard_hl_basisstrategy.Positions.Rebalance.{Asset, sol, jitosol, jupsol, inf}

-- Python's `p in s`
abbrev pub has_substring : String → String → Bool
has_substring p empty = starts_with empty p
has_substring p (cons c s) = starts_with (cons c s) p || has_substring p s

-- `get_mint` of shared/config/assets.py.
abbrev pub get_mint : Asset → String
get_mint sol = "So11111111111111111111111111111111111111112"
get_mint jitosol = "J1toso1uCk3RLmjorhTtrVwY9HJ7X8V9yYac6Y7kGCPn"
get_mint jupsol = "jupSoLaHXQiZZTSfEWMTRRgpnyFm8f6sZdosWBjx93v"
get_mint inf = "5oVNBeEEQvYi1cX3ir8Dx5n1P7pdxydbGF2X6TxNxsi"

-- The texts that are there and equal.
abbrev pub is_named : Option String → String → Bool
is_named none t = false
is_named (some s) t = str_eq s t

module _ (N : Numbers) where
  open N use {Number, literal, add, sub, mul, div, abs, lt, eq}

  pub record Context : Type 0 where
    pub mark_px : Option Number
    pub oracle_px : Option Number

  -- The context at the position of the first entry with the coin's name, if there is one.
  abbrev pub context_of : String → List (Option String) → List Context → Option Context
  context_of coin [] contexts = none
  context_of coin (n ∷ universe) [] = none
  context_of coin (n ∷ universe) (c ∷ contexts) =
      if is_named n coin then some c else context_of coin universe contexts

  -- The mark price, and the oracle's if it is there besides the mark.
  abbrev pub prices_of : Context → Result (Number × Option Number)
  prices_of c = elim c.mark_px [
    | some mark ↦ ok (mark, c.oracle_px)
    | none ↦ elim c.oracle_px [
      | none ↦ raises (value_error "No price available")
      | some oracle ↦ ok (oracle, none)
    ]
  ]

  unfoldable pub get_hyperliquid_prices :
      String → Result (List (Option String) × List Context) → Result (Number × Option Number)
  get_hyperliquid_prices coin (raises e) = raises e
  get_hyperliquid_prices coin (ok (universe, contexts)) = elim (context_of coin universe contexts) [
    | none ↦ raises (value_error "Coin not found in Hyperliquid asset contexts")
    | some c ↦ prices_of c
  ]

  pub record Strategy : Type 0 where
    pub token_a_mint : Option String
    pub oracle_price : Option Number
    pub price : Option Number
    pub token_a_price : Option Number

  abbrev pub Markets : Type 0
  Markets = List (String × Strategy)

  abbrev pub first_of : Option Number → Option Number → Option Number
  first_of (some x) y = some x
  first_of none y = y

  -- The first price of a strategy of the token.
  abbrev pub market_price : String → Markets → Option Number
  market_price mint [] = none
  market_price mint ((name, s) ∷ markets) =
      let rest = market_price mint markets in
      if is_named s.token_a_mint mint
      then elim (first_of (first_of s.oracle_price s.price) s.token_a_price) [
        | some x ↦ some x
        | none ↦ rest
      ]
      else rest

  -- A price that is there and not 0.
  abbrev pub true_price : Option Number → Option Number
  true_price none = none
  true_price (some x) = if eq x (zero_number N) then none else some x

  -- The first price that is not 0 of a strategy with SOL in its name.
  abbrev pub fallback_price : Markets → Option Number
  fallback_price [] = none
  fallback_price ((name, s) ∷ markets) =
      let rest = fallback_price markets in
      if has_substring "SOL" name
      then elim (true_price (first_of (true_price s.oracle_price) s.price)) [
        | some x ↦ some x
        | none ↦ rest
      ]
      else rest

  unfoldable pub get_fallback_asgard_price : Result Markets → Result Number
  get_fallback_asgard_price (raises e) = raises e
  get_fallback_asgard_price (ok markets) = elim (fallback_price markets) [
    | none ↦ raises (value_error "Could not get fallback price")
    | some x ↦ ok x
  ]

  unfoldable pub get_asgard_price : Asset → Result Markets → Result Markets → Result Number
  unfolding get_fallback_asgard_price
  get_asgard_price asset (raises e) again = raises e
  get_asgard_price asset (ok markets) again = elim (market_price (get_mint asset) markets) [
    | some x ↦ ok x
    | none ↦ get_fallback_asgard_price again
  ]

  -- The two prices that are compared.
  unfoldable pub fetch_prices :
      Result (Number × Option Number) → Result Number → Result (Number × Number)
  fetch_prices (raises e) asgard = raises e
  fetch_prices (ok (mark, some oracle)) asgard = ok (oracle, mark)
  fetch_prices (ok (mark, none)) (ok x) = ok (x, mark)
  fetch_prices (ok (mark, none)) (raises e) = ok (mark, mark)

  -- Prices of opposite signs may have the average 0, by which the division raises.
  unfoldable pub deviation_of : Number → Number → Result Number
  deviation_of a b =
      if eq a (zero_number N) && eq b (zero_number N)
      then ok (zero_number N)
      else if eq a (zero_number N) || eq b (zero_number N)
      then ok (literal 1 0)
      else if eq (div (add a b) (literal 2 0)) (zero_number N)
      then raises (exception "division by zero")
      else ok (div (abs (sub a b)) (div (add a b) (literal 2 0)))

  pub record ConsensusReport : Type 0 where
    pub asgard_price : Number
    pub hyperliquid_price : Number
    pub price_deviation_pct : Number
    pub asset : Asset
    pub is_within_threshold : Bool
    pub threshold : Number

  -- `max_deviation or MAX_PRICE_DEVIATION`
  abbrev pub deviation_limit : Option Number → Number
  deviation_limit given = number_or N given (literal 5 3)

  -- Asgard's markets are only read where Hyperliquid has no oracle price.
  unfoldable pub check_consensus :
      Option Number
      → Asset
      → String
      → Result (List (Option String) × List Context)
      → Result Markets
      → Result Markets
      → Result ConsensusReport
  unfolding fetch_prices
  check_consensus given asset coin contexts markets again =
      elim (fetch_prices (get_hyperliquid_prices coin contexts)
        (get_asgard_price asset markets again)) [
          | raises e ↦ raises e
          | ok (asgard, mark) ↦ elim (deviation_of asgard mark) [
            | raises e ↦ raises e
            | ok deviation ↦ ok (record {
              asgard_price = asgard;
              hyperliquid_price = mark;
              price_deviation_pct = deviation;
              asset = asset;
              is_within_threshold = le N deviation (deviation_limit given);
              threshold = deviation_limit given;
            })
          ]
        ]

  unfoldable pub slippage_adjusted_prices : ConsensusReport → Number → Number × Number
  slippage_adjusted_prices c slippage_bps =
      let slippage = div slippage_bps (literal 10000 0) in
      (
        mul c.asgard_price (add (literal 1 0) slippage),
        mul c.hyperliquid_price (sub (literal 1 0) slippage),
      )
