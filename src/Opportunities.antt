-- ===== src/Opportunities.antt =====
-- bot/core/opportunity_detector.py: class OpportunityDetector, with the models of
-- shared/models/opportunity.py that it makes. This file has the models, the order in which Python's
-- sort puts them, and the tests on one opportunity; Opportunities/Scan the scan.
pub mod Sorting
pub mod Scan
pub mod Best
pub mod Criteria
pub mod Found
use asgard_hl_basisstrategy.Base.{
  ℕ, String, Bool, true, false, ◌&&◌, ◌||◌, not, Option, none, some, or_else, List, [], ◌∷◌, filter,
  Numbers, zero_number, le, Result, ok, raises, value_error, if◌then◌else◌,
}
use asgard_hl_basisstrategy.Positions.Rebalance.{Asset, sol, jitosol, jupsol, inf, is_lst}
use asgard_hl_basisstrategy.Opportunities.Sorting.{sort_by}

pub data Protocol : Type 0 where
  marginfi kamino solend drift : Protocol

abbrev pub is_sol : Asset → Bool
is_sol a = not (is_lst a)

module _ (N : Numbers) where
  open N use {Number, literal, add, sub, mul, neg, abs, lt}

  pub record OpportunityScore : Type 0 where
    pub funding_apy : Number
    pub net_carry_apy : Number
    pub lst_staking_apy : Number
    pub estimated_gas_cost_apy : Number
    pub estimated_slippage_apy : Number

  abbrev pub total_gross_apy : OpportunityScore → Number
  total_gross_apy s = add (add s.funding_apy s.net_carry_apy) s.lst_staking_apy

  abbrev pub score_net_apy : OpportunityScore → Number
  score_net_apy s = sub (sub (total_gross_apy s) s.estimated_gas_cost_apy) s.estimated_slippage_apy

  abbrev pub is_profitable : OpportunityScore → Bool
  is_profitable s = lt (zero_number N) (score_net_apy s)

  -- An opportunity, without its ids, mints and times. The two funding rates are those of 8 hours.
  pub record Opportunity : Type 0 where
    pub asset : Asset
    pub selected_protocol : Protocol
    pub lending_apy : Number
    pub borrowing_apy : Number
    pub current_funding : Number
    pub predicted_funding : Option Number
    pub funding_volatility : Number
    pub leverage : Number
    pub deployed_capital_usd : Number
    pub position_size_usd : Number
    pub score : OpportunityScore
    pub price_deviation : Number
    pub preflight_checks_passed : Bool

  -- The property `total_expected_apy`.
  abbrev pub total_expected_apy : Opportunity → Number
  total_expected_apy o = score_net_apy o.score

  -- The property `is_negative` of a funding rate.
  abbrev pub is_negative : Number → Bool
  is_negative rate = lt rate (zero_number N)

  -- A missing prediction counts as negative here, as in `filter_opportunities`.
  abbrev pub may_stay_negative : Option Number → Bool
  may_stay_negative none = true
  may_stay_negative (some rate) = is_negative rate

  abbrev pub stays_negative : Option Number → Bool
  stays_negative none = false
  stays_negative (some rate) = is_negative rate

  unfoldable pub meets_entry_criteria : Opportunity → Bool
  meets_entry_criteria o =
      if not (is_negative o.current_funding)
      then false
      else if not (may_stay_negative o.predicted_funding)
      then false
      else if not (is_profitable o.score)
      then false
      else if lt (literal 5 1) o.funding_volatility
      then false
      else if lt (literal 5 3) o.price_deviation
      then false
      else o.preflight_checks_passed

  -- The criteria of `check_entry_criteria`, in the order of its dict, and their conjunction.
  unfoldable pub check_entry_criteria : Opportunity → Bool × List (String × Bool)
  check_entry_criteria o =
      let current = is_negative o.current_funding in
      let predicted = stays_negative o.predicted_funding in
      let profitable = is_profitable o.score in
      let volatility = lt o.funding_volatility (literal 5 1) in
      let price = lt o.price_deviation (literal 5 3) in
      (
        current && predicted && profitable && volatility && price && o.preflight_checks_passed,
        ("current_funding_negative", current)
            ∷ ("predicted_funding_negative", predicted)
            ∷ ("total_apy_positive", profitable)
            ∷ ("volatility_acceptable", volatility)
            ∷ ("price_deviation_acceptable", price)
            ∷ ("preflight_passed", o.preflight_checks_passed)
            ∷ [],
      )

  -- `max_volatility or MAX_FUNDING_VOLATILITY`
  abbrev pub volatility_limit : Option Number → Number
  volatility_limit none = literal 5 1
  volatility_limit (some v) = if N.eq v (zero_number N) then literal 5 1 else v

  unfoldable pub filter_opportunities :
      List Opportunity → Number → Option Number → Bool → List Opportunity
  filter_opportunities opportunities min_total_apy max_volatility require =
      filter
        (λ o.
          not (lt (total_expected_apy o) min_total_apy)
          && not (lt (volatility_limit max_volatility) o.funding_volatility)
          && (not require || may_stay_negative o.predicted_funding))
        opportunities

  -- Whether the sort key of the first is smaller: tuples are compared by their first items that
  -- differ, and two numbers are equal here if neither is smaller. The last item is 0 for SOL.
  unfoldable pub key_below : Opportunity → Opportunity → Bool
  key_below x y =
      lt (total_expected_apy x) (total_expected_apy y)
      || not (lt (total_expected_apy y) (total_expected_apy x))
        && (lt (neg x.funding_volatility) (neg y.funding_volatility)
            || not (lt (neg y.funding_volatility) (neg x.funding_volatility))
              && is_sol x.asset
              && not (is_sol y.asset))

  -- The first after a sort with `reverse=True`.
  unfoldable pub get_best_opportunity : List Opportunity → Option Opportunity
  get_best_opportunity opportunities = elim (sort_by key_below opportunities) [
    | [] ↦ none
    | o ∷ rest ↦ some o
  ]

  pub record OpportunityDetector : Type 0 where
    pub leverage : Number
    pub deployed_capital_usd : Number

  unfoldable pub init : Number → Number → Result OpportunityDetector
  init leverage capital =
      if le N (literal 2 0) leverage && le N leverage (literal 4 0)
      then ok (record { leverage = leverage; deployed_capital_usd = capital })
      else raises (value_error "Leverage must be between 2 and 4")

  -- `staking_apy` of shared/config/assets.py.
  abbrev pub staking_apy : Asset → Number
  staking_apy sol = zero_number N
  staking_apy jitosol = literal 8 2
  staking_apy jupsol = literal 75 3
  staking_apy inf = literal 7 2

  -- The net carry is Asgard's answer.
  unfoldable pub calculate_total_apy :
      Asset → Option Number → Number → OpportunityDetector → Number × Number × Number
  calculate_total_apy asset none rate d = (zero_number N, zero_number N, zero_number N)
  calculate_total_apy asset (some carry) rate d =
      (mul (abs rate) d.leverage, carry, if is_lst asset then staking_apy asset else zero_number N)
