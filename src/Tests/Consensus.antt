-- ===== src/Tests/Consensus.antt =====
-- The price consensus on concrete answers.
use asgard_hl_basisstrategy.Base.{
  String, ◌≡◌, refl, Option, none, some, List, [], ◌∷◌, ok, raises, exception,
}
use asgard_hl_basisstrategy.Positions.Rebalance.{jitosol}
use asgard_hl_basisstrategy.Consensus.{
  Context, Markets, context_of, get_asgard_price, get_fallback_asgard_price, get_hyperliquid_prices,
  fetch_prices, deviation_of, deviation_limit, check_consensus,
}
use asgard_hl_basisstrategy.Consensus.Sources.{Compares, check_consensus-Compares}
use asgard_hl_basisstrategy.Tests.Decimals.{whole, decimals}

abbrev universe : List (Option String)
universe = some "BTC" ∷ none ∷ some "SOL" ∷ []

abbrev contexts : Option (decimals.Number) → List (Context decimals)
contexts oracle =
    record { mark_px = some (whole 90000); oracle_px = none }
    ∷ record { mark_px = none; oracle_px = none }
    ∷ record { mark_px = some (whole 200); oracle_px = oracle }
    ∷ []

-- No strategy is of jitoSOL's mint; the second has SOL in its name.
abbrev markets : Markets decimals
markets =
    (
      "BONK/USDC",
      record {
        token_a_mint = none;
        oracle_price = some (whole 7);
        price = none;
        token_a_price = none;
      },
    )
    ∷ (
      "SOL/USDC",
      record {
        token_a_mint = none;
        oracle_price = some (whole 0);
        price = some (whole 202);
        token_a_price = none;
      },
    )
    ∷ []

fallback_test : get_asgard_price decimals jitosol (ok markets) (ok markets) ≡ ok (whole 202)
unfolding get_asgard_price get_fallback_asgard_price
fallback_test = refl

oracle_test :
    fetch_prices decimals
      (get_hyperliquid_prices decimals "SOL" (ok (universe, contexts (some (whole 201)))))
      (raises (exception "timeout"))
    ≡ ok (whole 201, whole 200)
unfolding fetch_prices get_hyperliquid_prices
oracle_test = refl

deviation_test : deviation_of decimals (whole 0) (whole 3) ≡ ok (whole 1)
unfolding deviation_of
deviation_test = refl

check_consensus-Compares_example :
    Compares decimals
      (context_of decimals "SOL" universe (contexts none))
      (get_asgard_price decimals jitosol (ok markets) (ok markets))
      (deviation_limit decimals none)
      (check_consensus decimals none jitosol "SOL"
        (ok (universe, contexts none))
        (ok markets)
        (ok markets))
check_consensus-Compares_example =
    check_consensus-Compares decimals none jitosol "SOL" universe (contexts none) (ok markets)
      (ok markets)
