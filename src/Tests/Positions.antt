-- ===== src/Tests/Positions.antt =====
-- Opening and closing positions on concrete answers of the venues.
use asgard_hl_basisstrategy.Base.{
  insert, lookup, ◌≡◌, refl, true, false, Option, none, some, [], ◌∷◌, any, exception, Result, ok,
  raises, zero_number,
}
use asgard_hl_basisstrategy.Fills.{
  fill_info, validate_fills, reassess, decide_action, calculate_deviation,
}
use asgard_hl_basisstrategy.Fills.Actions.{deviates}
use asgard_hl_basisstrategy.Positions.Types.{
  consensus_price, opened, manual, target_profit, closes_short, closes_long, AsgardPosition,
  CombinedPosition, ArbitrageOpportunity, OpenPositionResult, OrderResult, PositionInfo, Venues,
  PositionManager,
}
use asgard_hl_basisstrategy.Positions.Open.{
  open_position, open_legs, after_long, open_short_leg, finish_open, store_opened, store_position,
  sizes_of,
}
use asgard_hl_basisstrategy.Positions.Legs.{
  open_hyperliquid_position, after_order, validate_position_entry, asgard_fill_of,
  hyperliquid_fill_of, hyperliquid_position, act_on, token_price, to_option,
}
use asgard_hl_basisstrategy.Positions.OpenLaws.{
  Settled, open_position-Settled, opens_a_short, closes_a_leg,
}
use asgard_hl_basisstrategy.Positions.OpenGaps.{open_position_leaves_both, no_reason, short_fill}
use asgard_hl_basisstrategy.Positions.Close.{close_position}
use asgard_hl_basisstrategy.Positions.Lives.{
  open_call, close_call, refresh_call, requests_to_close, requests_to_close_lem,
}
use asgard_hl_basisstrategy.Positions.CloseLaws.{Closes, close_position_lem}
use asgard_hl_basisstrategy.Tests.Decimals.{ℤ, pos, whole, decimals, decimals-IsOrdered}

abbrev opportunity : ArbitrageOpportunity decimals
opportunity = record {
  id = "opp";
  deployed_capital_usd = whole 10000;
  position_size_usd = whole 30000;
  leverage = whole 3;
  total_expected_apy = pos 250000;
  preflight_checks_passed = true;
}

abbrev long_leg : AsgardPosition decimals
long_leg = record {
  position_pda = "pda";
  position_size_usd = whole 15000;
  token_a_amount = whole 150;
  entry_price_token_a = whole 100;
  current_health_factor = pos 250000;
  current_token_a_price = whole 100;
}

abbrev opened_long : OpenPositionResult decimals
opened_long = record { success = true; position = some long_leg; error = none }

-- A short order that filled at a price.
abbrev filled_at : ℤ → OrderResult decimals
filled_at px = record { success = true; order_id = some "1"; avg_px = some px; error = none }

abbrev short_info : PositionInfo decimals
short_info = record { entry_px = whole 100; margin_used = whole 5000; margin_fraction = pos 333333 }

abbrev venues : ℤ → Result (Option (PositionInfo decimals)) → Venues decimals
venues px info = record {
  consensus = ok (record { asgard_price = whole 100; hyperliquid_price = whole 100 });
  open_long = ok opened_long;
  update_leverage = ok tt;
  open_short = ok (filled_at px);
  get_position = info;
  close_short = raises (exception "timeout");
  close_long = ok (record { success = true; error = none });
}

abbrev manager : PositionManager decimals
manager = record { positions = []; contexts = []; fill_limit = pos 5000 }

-- A position that was opened at the expected prices.
abbrev pub good_venues : Venues decimals
good_venues = venues (whole 100) (ok (some short_info))

abbrev opened_manager : PositionManager decimals
opened_manager = (open_position decimals "p" 7 opportunity good_venues manager).0

open_position-Settled_example :
    Settled decimals "p" manager (open_position decimals "p" 7 opportunity good_venues manager)
open_position-Settled_example = open_position-Settled decimals "p" 7 opportunity good_venues manager

priced :
    (px : ℤ) (info : Result (Option (PositionInfo decimals)))
    → decimals.eq
        (token_price decimals (to_option (venues px info).consensus))
        (zero_number decimals)
      ≡ false
unfolding token_price consensus_price
priced px info = refl

far_from_limit :
    deviates decimals decimals-IsOrdered (pos 5000) (
      short_fill decimals decimals-IsOrdered
        (sizes_of decimals "p" 7 opportunity (venues (whole 99) (ok (some short_info))))
        opportunity
        (filled_at (whole 99))
        (some short_info))
    ≡ true
unfolding hyperliquid_fill_of hyperliquid_position sizes_of fill_info calculate_deviation
far_from_limit = refl

open_position_leaves_both_example :
    let (m', calls, result) =
      open_position decimals "p" 7 opportunity (venues (whole 99) (ok (some short_info))) manager in
    (m' ≡ manager)
    × (any (opens_a_short decimals) calls ≡ true)
    × (any (closes_a_leg decimals) calls ≡ false)
    × (result ≡ no_reason decimals decimals-IsOrdered)
open_position_leaves_both_example =
    open_position_leaves_both decimals decimals-IsOrdered "p" 7 opportunity
      (venues (whole 99) (ok (some short_info))) manager opened_long long_leg (filled_at (whole 99))
      (some short_info) refl (priced (whole 99) (ok (some short_info))) refl refl refl refl refl
      refl far_from_limit

-- The position that the good answers leave.
abbrev position : CombinedPosition decimals
position = record {
  position_id = "p";
  asgard = long_leg;
  hyperliquid =
      hyperliquid_position decimals "SOL" (whole 150) (whole 3) (filled_at (whole 100))
        (some short_info);
  reference = record {
    asgard_entry_price = whole 100;
    hyperliquid_entry_price = whole 100;
    max_acceptable_deviation = pos 5000;
  };
  opportunity_id = "opp";
  status = opened;
  exit_reason = none;
  exit_time = none;
}

opened_test : lookup "p" opened_manager.positions ≡ some position
unfolding open_position sizes_of token_price consensus_price open_legs after_long open_short_leg
    open_hyperliquid_position after_order validate_position_entry asgard_fill_of hyperliquid_fill_of
    hyperliquid_position fill_info validate_fills reassess decide_action calculate_deviation act_on
    finish_open store_opened store_position insert lookup
opened_test = refl

abbrev tracked : PositionManager decimals
tracked = record { positions = ("p", position) ∷ []; contexts = []; fill_limit = pos 5000 }

found : lookup "p" tracked.positions ≡ some position
unfolding lookup
found = refl

-- The short's close times out and the long closes.
close_position_lem_example :
    Closes decimals "p" "q" manual 9 good_venues tracked position
      (close_position decimals "p" manual 9 good_venues tracked)
close_position_lem_example =
    close_position_lem decimals "p" "q" manual 9 good_venues tracked position found refl

-- The second close, after a refresh and another opening, requests nothing.
requests_to_close_lem_example :
    let cs =
      close_call "p" manual 9 good_venues
      ∷ refresh_call "p" (ok (whole 2)) (ok none)
      ∷ open_call "q" 10 opportunity good_venues
      ∷ close_call "p" target_profit 11 good_venues
      ∷ [] in
    requests_to_close decimals "p" cs tracked
    ≡ closes_short "SOL" (decimals.round 6 (decimals.abs position.hyperliquid.size_sol))
      ∷ closes_long position.asgard.position_pda
      ∷ []
unfolding lookup hyperliquid_position
requests_to_close_lem_example =
    requests_to_close_lem decimals "p"
      (close_call "p" manual 9 good_venues
        ∷ refresh_call "p" (ok (whole 2)) (ok none)
        ∷ open_call "q" 10 opportunity good_venues
        ∷ close_call "p" target_profit 11 good_venues
        ∷ [])
      tracked refl
