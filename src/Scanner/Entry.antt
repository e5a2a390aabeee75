-- ===== src/Scanner/Entry.antt =====
-- `_fetch_market_data`, `_cooldown_elapsed` and `_check_entry_criteria` of AutonomousScanner.
use asgard_hl_basisstrategy.Base.{
  ℕ, ◌+◌, ◌*◌, String, Bool, true, Option, none, some, or_else, List, map, leb, ltb, Numbers,
  zero_number, le, Result, ok, raises, lookup, if◌then◌else◌,
}
use asgard_hl_basisstrategy.Monitor.Types.{FundingRate, rate_8hr}
use asgard_hl_basisstrategy.Scanner.Types.{system_min_cooldown_minutes, ConfigRow, MarketData}

abbrev max_ℕ : ℕ → ℕ → ℕ
max_ℕ a b = if ltb a b then b else a

module _ (N : Numbers) where
  open N use {Number, literal, mul, abs, lt}

  -- A volatility that cannot be had counts as 1.
  abbrev volatility_or_one : Result Number → Number
  volatility_or_one (ok v) = v
  volatility_or_one (raises e) = literal 1 0

  -- From the oracle's answers; none if its rates cannot be had.
  unfoldable pub fetch_market_data :
      Result (List (String × FundingRate N)) → (String → Result Number) → Option (MarketData N)
  fetch_market_data (raises e) volatility = none
  fetch_market_data (ok rates) volatility = some (record {
    funding_rates = rates;
    volatilities = map (λ r. (r.0, volatility_or_one (volatility r.0))) rates;
  })

  -- The cooldown of the last close, else the current one, and at least the system's.
  unfoldable pub cooldown_of : ConfigRow N → ℕ
  unfolding max_ℕ
  cooldown_of c = max_ℕ (or_else c.cooldown_at_close c.cooldown_minutes) system_min_cooldown_minutes

  unfoldable pub cooldown_elapsed : ConfigRow N → ℕ → Bool
  unfolding cooldown_of
  cooldown_elapsed c now = elim c.last_close_time [
    | none ↦ true
    | some last ↦ leb (last + cooldown_of c * 60000000) now
  ]

  pub data Skip : Type 0 where
    funding_positive funding_below_threshold volatility_too_high carry_below_threshold : Skip

  -- The dict of a decision to enter, without the asset.
  pub record Entry : Type 0 where
    pub funding_rate_8hr : Number
    pub estimated_carry_apy : Number
    pub volatility : Number
    pub leverage : Number

  pub data Decision : Type 0 where
    enter : Entry → Decision
    skip : Skip → Decision

  abbrev pub estimated_carry : Number → Number → Number
  estimated_carry rate leverage =
      mul (mul (mul (mul (abs rate) (literal 3 0)) (literal 365 0)) leverage) (literal 100 0)

  unfoldable pub check_entry_criteria :
      ConfigRow N → String → FundingRate N → List (String × Number) → Decision
  check_entry_criteria c asset r volatilities =
      let rate = rate_8hr N r in
      let vol = or_else (lookup asset volatilities) (literal 1 0) in
      let carry = estimated_carry rate c.max_leverage in
      if le N (zero_number N) rate
      then skip funding_positive
      else if lt (abs rate) c.min_funding_rate_8hr
      then skip funding_below_threshold
      else if lt c.max_funding_volatility vol
      then skip volatility_too_high
      else if lt carry c.min_carry_apy
      then skip carry_below_threshold
      else enter (record {
        funding_rate_8hr = rate;
        estimated_carry_apy = carry;
        volatility = vol;
        leverage = c.max_leverage;
      })
