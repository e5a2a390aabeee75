-- ===== src/Tests/Sizing.antt =====
-- Position sizes for concrete balances.
use asgard_hl_basisstrategy.Base.{◌≡◌, refl, true, false, none, some}
use asgard_hl_basisstrategy.Sizing.{
  PositionSizer, calculate_position_size, clamp_leverage, scale_to_min, sized,
}
use asgard_hl_basisstrategy.Sizing.Bounds.{Within, calculate_position_size-Within}
use asgard_hl_basisstrategy.Tests.Decimals.{pos, whole, decimals, decimals-IsOrdered}

abbrev sizer : PositionSizer decimals
sizer = record {
  min_position_usd = whole 100;
  default_deployment_pct = pos 100000;
  max_deployment_pct = pos 500000;
  default_leverage = whole 3;
  max_leverage = whole 4;
}

-- The example of the class's documentation.
documented_test :
    (calculate_position_size decimals sizer (whole 50000) (whole 50000) none none).size
    ≡ some (record {
      per_leg_deployment_usd = whole 2500;
      position_size_usd = whole 7500;
      borrowed_usd = whole 5000;
      leverage = whole 3;
      deployment_pct_used = pos 100000;
      was_capped_by_min = false;
      was_capped_by_max = false;
      was_capped_by_balance = true;
    })
unfolding calculate_position_size sized clamp_leverage
documented_test = refl

-- The minimum deploys two thirds of the balance, above the maximal percentage.
minimum_test :
    (calculate_position_size decimals sizer (whole 100) (whole 100) none none).success ≡ true
unfolding calculate_position_size scale_to_min sized clamp_leverage
minimum_test = refl

calculate_position_size-Within_example :
    let r = calculate_position_size decimals sizer (whole 100) (whole 900) none (some (whole 7)) in
    Within decimals decimals-IsOrdered sizer (whole 100) (whole 900) r.success r.size
calculate_position_size-Within_example =
    calculate_position_size-Within decimals decimals-IsOrdered sizer (whole 100) (whole 900) none
      (some (whole 7)) refl
