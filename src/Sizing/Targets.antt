-- ===== src/Sizing/Targets.antt =====
-- Sizing for a target against whether the target can be afforded.
use asgard_hl_basisstrategy.Base.{
  ◌≡◌, false, some, not, if◌then◌else◌, Numbers, zero_number, min_of, ok, arith,
}
use asgard_hl_basisstrategy.Sizing.{
  PositionSizer, calculate_position_size, exceeds, size_target, calculate_for_opportunity,
  can_afford_position,
}

module _ (N : Numbers) where
  open N use {Number, literal, mul, div, lt, eq}

  -- The percentage of the smaller balance that a target needs over both legs.
  abbrev pub needed_pct : Number → Number → Number → Number → Number
  needed_pct sol hl target leverage =
      div (mul (div target leverage) (literal 2 0)) (min_of N sol hl)

  -- For a target and a leverage that are not 0, with a smaller balance that is not 0: if
  -- `can_afford_position` accepts the target, `calculate_for_opportunity` sizes it with the
  -- percentage that it needs, at most the maximum; if it does not, with the maximum.
  pub calculate_for_opportunity-can_afford_position :
      (s : PositionSizer N) (sol hl target leverage : Number)
      → eq target (zero_number N) ≡ false
      → eq leverage (zero_number N) ≡ false
      → eq (min_of N sol hl) (zero_number N) ≡ false
      → let affordable = not (exceeds N s sol hl (div target leverage)) in
        (can_afford_position N s sol hl target (some leverage) ≡ ok affordable)
        × (calculate_for_opportunity N s sol hl (some target) (some leverage)
            ≡ ok (
                calculate_position_size N s sol hl
                  (some (
                    if affordable
                    then min_of N (needed_pct sol hl target leverage) s.max_deployment_pct
                    else s.max_deployment_pct))
                  (some leverage)))
  unfolding can_afford_position calculate_for_opportunity size_target exceeds
  calculate_for_opportunity-can_afford_position s sol hl target leverage ht hl_ hb =
      (ground arith, ground arith)
