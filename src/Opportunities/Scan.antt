-- ===== src/Opportunities/Scan.antt =====
-- `scan_opportunities`, `_analyze_asset` and `_create_opportunity`. What Asgard and the oracle answer
-- for an asset is an argument; a value that is built is not checked further by pydantic.
use asgard_hl_basisstrategy.Base.{
  String, Bool, false, Option, none, some, List, [], ◌∷◌, not, Numbers, zero_number, Result, ok,
  raises, value_error, lookup, if◌then◌else◌,
}
use asgard_hl_basisstrategy.Positions.Rebalance.{Asset, sol}
use asgard_hl_basisstrategy.Monitor.Types.{FundingRate, rate_8hr}
use asgard_hl_basisstrategy.Intents.Execute.{validate_leverage, rate_annual}
use asgard_hl_basisstrategy.Opportunities.Sorting.{sort_by}
use asgard_hl_basisstrategy.Opportunities.{
  Protocol, Opportunity, OpportunityDetector, total_expected_apy,
}

module _ (N : Numbers) where
  open N use {Number, literal, mul, abs, lt}

  -- What the code reads of a NetCarryResult.
  pub record NetCarryResult : Type 0 where
    pub protocol : Protocol
    pub lending_rate : Number
    pub borrowing_rate : Number
    pub net_carry_apy : Number

  -- The answers of one analysis: `select_best_protocol`, the predicted hourly rate and the volatility.
  pub record Answers : Type 0 where
    pub best_protocol : Result (Option NetCarryResult)
    pub predicted_rate : Result Number
    pub volatility : Result Number

  unfoldable pub create_opportunity :
      Asset
      → NetCarryResult
      → Number
      → Number
      → Number
      → OpportunityDetector N
      → Result (Opportunity N)
  unfolding validate_leverage rate_annual
  create_opportunity asset p current predicted volatility d =
      if not (validate_leverage N d.leverage)
      then raises (value_error "leverage must be between 1.1 and 4")
      else ok (record {
        asset = asset;
        selected_protocol = p.protocol;
        lending_apy = p.lending_rate;
        borrowing_apy = p.borrowing_rate;
        current_funding = current;
        predicted_funding = some (mul predicted (literal 8 0));
        funding_volatility = volatility;
        leverage = d.leverage;
        deployed_capital_usd = d.deployed_capital_usd;
        position_size_usd = mul d.deployed_capital_usd d.leverage;
        score = record {
          funding_apy = mul (abs (rate_annual N current)) d.leverage;
          net_carry_apy = p.net_carry_apy;
          lst_staking_apy = zero_number N;
          estimated_gas_cost_apy = zero_number N;
          estimated_slippage_apy = zero_number N;
        };
        price_deviation = zero_number N;
        preflight_checks_passed = false;
      })

  abbrev pub optional : Result (Opportunity N) → Result (Option (Opportunity N))
  optional (raises e) = raises e
  optional (ok o) = ok (some o)

  unfoldable pub analyze_volatility :
      Asset
      → NetCarryResult
      → Number
      → Number
      → Result Number
      → OpportunityDetector N
      → Result (Option (Opportunity N))
  unfolding create_opportunity
  analyze_volatility asset p current predicted (raises e) d = raises e
  analyze_volatility asset p current predicted (ok volatility) d =
      if lt (literal 5 1) volatility
      then ok none
      else optional (create_opportunity asset p current predicted volatility d)

  unfoldable pub analyze_prediction :
      Asset
      → NetCarryResult
      → Number
      → Answers
      → OpportunityDetector N
      → Result (Option (Opportunity N))
  unfolding analyze_volatility
  analyze_prediction asset p current answers d = elim answers.predicted_rate [
    | raises e ↦ raises e
    | ok predicted ↦
        if not (lt predicted (zero_number N))
        then ok none
        else analyze_volatility asset p current predicted answers.volatility d
  ]

  unfoldable pub analyze_asset :
      Asset → Option Number → Answers → OpportunityDetector N → Result (Option (Opportunity N))
  unfolding analyze_prediction
  analyze_asset asset none answers d = ok none
  analyze_asset asset (some current) answers d =
      if not (lt current (zero_number N)) then ok none else elim answers.best_protocol [
        | raises e ↦ raises e
        | ok none ↦ ok none
        | ok (some p) ↦ analyze_prediction asset p current answers d
      ]

  -- The 8-hour rate of SOL, which the scan takes for every asset.
  abbrev pub current_rate : List (String × FundingRate N) → Option Number
  current_rate rates = elim (lookup "SOL" rates) [ none ↦ none | some r ↦ some (rate_8hr N r) ]

  -- The loop over the assets: an exception of one is logged.
  unfoldable pub analyze_assets :
      List Asset → Option Number → (Asset → Answers) → OpportunityDetector N → List (Opportunity N)
  analyze_assets [] current answers d = []
  analyze_assets (a ∷ assets) current answers d =
      let rest = analyze_assets assets current answers d in
      elim (analyze_asset a current (answers a) d) [
        | raises e ↦ rest
        | ok none ↦ rest
        | ok (some o) ↦ o ∷ rest
      ]

  abbrev pub apy_below : Opportunity N → Opportunity N → Bool
  apy_below x y = lt (total_expected_apy N x) (total_expected_apy N y)

  -- `assets or self.ALLOWED_ASSETS`
  abbrev pub allowed_assets : List Asset → List Asset
  allowed_assets [] = sol ∷ []
  allowed_assets (a ∷ as') = a ∷ as'

  unfoldable pub scan_opportunities :
      List Asset
      → Result (List (String × FundingRate N))
      → (Asset → Answers)
      → OpportunityDetector N
      → Result (List (Opportunity N))
  unfolding analyze_assets
  scan_opportunities assets (raises e) answers d = raises e
  scan_opportunities assets (ok rates) answers d =
      ok (sort_by apy_below (analyze_assets (allowed_assets assets) (current_rate rates) answers d))
