-- ===== src/Tests/Fills.antt =====
-- Fill validation on concrete fills, in six decimal places.
use asgard_hl_basisstrategy.Base.{◌≡◌, refl, ◌&&◌, ◌||◌, not, is_some, if◌then◌else◌, zero_number}
use asgard_hl_basisstrategy.Fills.{
  FillInfo, fill_info, proceed, soft_stop, hard_stop, recalculate_apy_at_fills, validate_fills,
  validate_quick, reassess, decide_action, calculate_deviation, calculate_price_impact,
}
use asgard_hl_basisstrategy.Fills.Actions.{deviates, validate_fills-action}
use asgard_hl_basisstrategy.Tests.Decimals.{pos, whole, decimals, decimals-IsOrdered}

-- The long filled 1% above its expected price, the short at its expected price.
abbrev long_fill : FillInfo decimals
long_fill = fill_info decimals "asgard" "long" (whole 5000) (whole 101) (whole 100)

abbrev short_fill : FillInfo decimals
short_fill = fill_info decimals "hyperliquid" "short" (whole 5000) (whole 100) (whole 100)

soft_stop_test :
    (validate_fills decimals (pos 5000) long_fill short_fill (pos 20000)).action ≡ soft_stop
unfolding fill_info validate_fills reassess decide_action recalculate_apy_at_fills
    calculate_deviation calculate_price_impact
soft_stop_test = refl

hard_stop_test :
    (validate_fills decimals (pos 5000) long_fill short_fill (pos 5000)).action ≡ hard_stop
unfolding fill_info validate_fills reassess decide_action recalculate_apy_at_fills
    calculate_deviation calculate_price_impact
hard_stop_test = refl

proceed_test :
    (validate_fills decimals (pos 10000) long_fill short_fill (pos 5000)).action ≡ proceed
unfolding fill_info validate_fills reassess decide_action recalculate_apy_at_fills
    calculate_deviation calculate_price_impact
proceed_test = refl

validate_fills-action_example :
    let r = validate_fills decimals (pos 5000) long_fill short_fill (pos 20000) in
    let stopped =
      deviates decimals decimals-IsOrdered (pos 5000) long_fill
      || deviates decimals decimals-IsOrdered (pos 5000) short_fill in
    let losing =
      decimals.lt
        (recalculate_apy_at_fills decimals long_fill short_fill (pos 20000))
        (zero_number decimals) in
    (r.action ≡ (if stopped then (if losing then hard_stop else soft_stop) else proceed))
    × (r.is_valid ≡ not (stopped && losing))
    × (r.should_unwind ≡ (stopped && losing))
    × (is_some r.soft_stop_reason ≡ stopped)
    × ((validate_quick decimals
          (pos 5000)
          long_fill.filled_price
          short_fill.filled_price
          long_fill.expected_price
          short_fill.expected_price).soft_stop_triggered
        ≡ stopped)
validate_fills-action_example =
    validate_fills-action decimals decimals-IsOrdered (pos 5000) (pos 20000) long_fill short_fill
