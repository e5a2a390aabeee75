-- ===== src/Tests/Preflight.antt =====
-- The preflight checks of a concrete opportunity.
use asgard_hl_basisstrategy.Base.{
  ◌≡◌, refl, true, false, ◌&&◌, ◌||◌, none, some, not, ok, raises, exception,
}
use asgard_hl_basisstrategy.Positions.Preflight.{
  Candidate, Answers, run_preflight_checks, check_wallet_balance, check_usdc, check_deposit,
  check_price, check_funding_validation, check_protocol_capacity, select_protocol, check_capacity,
  needed,
}
use asgard_hl_basisstrategy.Positions.PreflightLaws.{
  refuses_wallet, agrees, pays_shorts, has_capacity, is_empty, run_preflight_checks_lem,
}
use asgard_hl_basisstrategy.Tests.Decimals.{pos, whole, decimals}

abbrev candidate : Candidate decimals
candidate = record {
  deployed_capital_usd = whole 10000;
  current_is_negative = true;
  predicted_is_negative = some true;
  selected_protocol = 0;
  price_deviation = none;
  preflight_checks_passed = false;
}

-- The USDC balance cannot be read, and nothing is deposited on Hyperliquid.
abbrev answers : Answers decimals
answers = record {
  sol_balance = ok (whole 1);
  usdc_balance = raises (exception "timeout");
  deposited_balance = ok (whole 0);
  consensus = ok (true, pos 1000);
  market_data = ok tt;
  best_protocol = ok (some 2);
}

unread_test : (run_preflight_checks decimals candidate answers).1.passed ≡ true
unfolding run_preflight_checks check_wallet_balance check_usdc check_price check_funding_validation
    check_protocol_capacity select_protocol check_capacity
unread_test = refl

undeposited_test :
    (run_preflight_checks decimals candidate
      (record answers { usdc_balance = ok (whole 9000) })).1.passed
    ≡ false
unfolding run_preflight_checks check_wallet_balance check_usdc check_deposit check_price
    check_funding_validation check_protocol_capacity select_protocol check_capacity needed
undeposited_test = refl

run_preflight_checks_lem_example :
    let (c', r) = run_preflight_checks decimals candidate answers in
    (r.passed ≡ (
      not (refuses_wallet decimals candidate answers)
      && (agrees decimals answers.consensus
          && (pays_shorts decimals candidate && has_capacity decimals answers))))
    × (is_empty decimals r.errors ≡ r.passed)
    × (c'.preflight_checks_passed ≡ (r.passed || candidate.preflight_checks_passed))
    × (c'.selected_protocol ≡ 2)
run_preflight_checks_lem_example = run_preflight_checks_lem decimals candidate answers
