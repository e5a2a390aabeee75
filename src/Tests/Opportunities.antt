-- ===== src/Tests/Opportunities.antt =====
-- The opportunity detector on concrete answers.
use asgard_hl_basisstrategy.Base.{
  String, true, false, ◌≡◌, ◌||◌, refl, not, none, some, List, [], ◌∷◌, ok, raises, value_error,
  lookup, is_some,
}
use asgard_hl_basisstrategy.Positions.Rebalance.{Asset, sol, jitosol, inf, is_lst}
use asgard_hl_basisstrategy.Monitor.Types.{FundingRate}
use asgard_hl_basisstrategy.Intents.Execute.{validate_leverage, rate_annual}
use asgard_hl_basisstrategy.Opportunities.{
  Opportunity, OpportunityDetector, kamino, init, key_below, get_best_opportunity,
  meets_entry_criteria, check_entry_criteria,
}
use asgard_hl_basisstrategy.Opportunities.Scan.{
  Answers, current_rate, create_opportunity, analyze_volatility, analyze_prediction, analyze_asset,
  analyze_assets, scan_opportunities,
}
use asgard_hl_basisstrategy.Opportunities.Best.{Chooses, get_best_opportunity-Chooses}
use asgard_hl_basisstrategy.Opportunities.Criteria.{
  at_limit, check_entry_criteria-meets_entry_criteria,
}
use asgard_hl_basisstrategy.Opportunities.Found.{Finds, is_chance, scan_opportunities-Finds}
use asgard_hl_basisstrategy.Tests.Decimals.{pos, neg_ℤ, whole, decimals, decimals-IsOrdered}

abbrev detector : OpportunityDetector decimals
detector = record { leverage = whole 3; deployed_capital_usd = whole 50000 }

init_test : init decimals (whole 3) (whole 50000) ≡ ok detector
unfolding init
init_test = refl

abbrev rates : List (String × FundingRate decimals)
rates =
    (
      "SOL",
      record {
        coin = "SOL";
        funding_rate = neg_ℤ (pos 100);
        timestamp_ms = 7;
        annualized_rate = neg_ℤ (pos 876000);
      },
    )
    ∷ []

abbrev answer : Answers decimals
answer = record {
  best_protocol = ok (
      some (record {
        protocol = kamino;
        lending_rate = pos 50000;
        borrowing_rate = pos 30000;
        net_carry_apy = pos 90000;
      }));
  predicted_rate = ok (neg_ℤ (pos 200));
  volatility = ok (pos 100000);
}

-- Asgard raises for INF.
abbrev answers : Asset → Answers decimals
answers inf = record answer { best_protocol = raises (value_error "no answer") }
answers _ = answer

abbrev opportunity : Asset → Opportunity decimals
opportunity asset = record {
  asset = asset;
  selected_protocol = kamino;
  lending_apy = pos 50000;
  borrowing_apy = pos 30000;
  current_funding = neg_ℤ (pos 800);
  predicted_funding = some (neg_ℤ (pos 1600));
  funding_volatility = pos 100000;
  leverage = whole 3;
  deployed_capital_usd = whole 50000;
  position_size_usd = whole 150000;
  score = record {
    funding_apy = pos 2628000;
    net_carry_apy = pos 90000;
    lst_staking_apy = pos 0;
    estimated_gas_cost_apy = pos 0;
    estimated_slippage_apy = pos 0;
  };
  price_deviation = pos 0;
  preflight_checks_passed = false;
}

scan_test :
    scan_opportunities decimals (sol ∷ inf ∷ jitosol ∷ []) (ok rates) answers detector
    ≡ ok (opportunity sol ∷ opportunity jitosol ∷ [])
unfolding scan_opportunities analyze_assets analyze_asset analyze_prediction analyze_volatility
    create_opportunity validate_leverage rate_annual lookup
scan_test = refl

-- SOL and jitoSOL agree in APY and volatility.
best_test :
    get_best_opportunity decimals (opportunity sol ∷ opportunity jitosol ∷ [])
    ≡ some (opportunity jitosol)
unfolding get_best_opportunity key_below
best_test = refl

get_best_opportunity-Chooses_example :
    Chooses decimals decimals-IsOrdered
      (opportunity sol ∷ opportunity jitosol ∷ [])
      (λ o. is_lst o.asset)
      (get_best_opportunity decimals (opportunity sol ∷ opportunity jitosol ∷ []))
get_best_opportunity-Chooses_example =
    get_best_opportunity-Chooses decimals decimals-IsOrdered
      (opportunity sol ∷ opportunity jitosol ∷ []) (λ o. is_lst o.asset)

check_entry_criteria-meets_entry_criteria_example :
    let o = record (opportunity sol) { predicted_funding = none; preflight_checks_passed = true } in
    ((not (check_entry_criteria decimals o).0 || meets_entry_criteria decimals o) ≡ true)
    × ((not (meets_entry_criteria decimals o)
          || (check_entry_criteria decimals o).0
          || not (is_some o.predicted_funding)
          || at_limit decimals decimals-IsOrdered o.funding_volatility (decimals.literal 5 1)
          || at_limit decimals decimals-IsOrdered o.price_deviation (decimals.literal 5 3))
        ≡ true)
check_entry_criteria-meets_entry_criteria_example =
    check_entry_criteria-meets_entry_criteria decimals decimals-IsOrdered
      (record (opportunity sol) { predicted_funding = none; preflight_checks_passed = true })

scan_opportunities-Finds_example :
    Finds decimals decimals-IsOrdered is_lst
      (sol ∷ inf ∷ jitosol ∷ [])
      (λ a. is_chance decimals (current_rate decimals rates) (answers a) detector)
      (scan_opportunities decimals (sol ∷ inf ∷ jitosol ∷ []) (ok rates) answers detector)
scan_opportunities-Finds_example =
    scan_opportunities-Finds decimals decimals-IsOrdered is_lst (sol ∷ inf ∷ jitosol ∷ []) rates
      answers detector
