-- ===== src/Tests/Rebalance.antt =====
-- Rebalancing a concrete position.
use asgard_hl_basisstrategy.Base.{◌≡◌, ◌||◌, refl, none, arith}
use asgard_hl_basisstrategy.Positions.Types.{CombinedPosition, opened}
use asgard_hl_basisstrategy.Positions.Rebalance.{
  jitosol, sol, too_costly, get_position_delta, rebalance_if_needed, needs_rebalance,
  drift_direction,
}
use asgard_hl_basisstrategy.Tests.Decimals.{ℤ, pos, lt_ℤ, neg_ℤ, magnitude, whole, decimals}

-- 150 tokens at a price, against a short of 150 at 100.
abbrev position_at : ℤ → CombinedPosition decimals
position_at price = record {
  position_id = "p";
  asgard = record {
    position_pda = "pda";
    position_size_usd = whole 15000;
    token_a_amount = whole 150;
    entry_price_token_a = whole 100;
    current_health_factor = pos 250000;
    current_token_a_price = price;
  };
  hyperliquid = record {
    coin = "SOL";
    size_sol = neg_ℤ (whole 150);
    entry_px = whole 100;
    leverage = whole 3;
    margin_used = whole 5000;
    margin_fraction = pos 333333;
    account_value = whole 5000;
    mark_px = whole 100;
  };
  reference = record {
    asgard_entry_price = whole 100;
    hyperliquid_entry_price = whole 100;
    max_acceptable_deviation = pos 5000;
  };
  opportunity_id = "opp";
  status = opened;
  exit_reason = none;
  exit_time = none;
}

-- A rise of 5% leans to the long side; its cost of a day is far below that of a rebalance.
rebalance_test :
    (drift_direction decimals (get_position_delta decimals sol (position_at (whole 105)))
      ≡ "long_heavy")
    × ((rebalance_if_needed decimals sol (position_at (whole 105))).reason
        ≡ too_costly (pos 75000) (whole 25))
unfolding rebalance_if_needed get_position_delta needs_rebalance drift_direction
rebalance_test = (refl, refl)

-- The code counts the appreciation of a staked token twice.
appreciation_test :
    (get_position_delta decimals jitosol (position_at (whole 105))).effective_delta_usd ≡ whole 1500
unfolding get_position_delta
appreciation_test = refl

split_abs : (t a : ℤ) → lt_ℤ t (pos (magnitude a)) ≡ (lt_ℤ t a || lt_ℤ a (neg_ℤ t))
split_abs t a = ground arith
