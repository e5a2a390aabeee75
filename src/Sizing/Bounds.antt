-- ===== src/Sizing/Bounds.antt =====
-- The limits that a calculated size respects.
use asgard_hl_basisstrategy.Base.{
  ◌≡◌, Bool, true, false, ◌||◌, Option, none, some, not, Numbers, le, min_of, number_or, IsOrdered,
  le-min_of, le_refl, arith,
}
use asgard_hl_basisstrategy.Sizing.{
  PositionSize, PositionSizer, clamp_leverage, sized, scale_to_min, calculate_position_size,
}

module _ (N : Numbers) (order : IsOrdered N) where
  open N use {Number, literal, sub, mul, div, lt}

  -- A result without a size has failed. A result with a size has succeeded, and respects the limits;
  -- a size that was scaled up to the minimum deploys at most the smaller balance.
  abbrev pub Within : PositionSizer N → Number → Number → Bool → Option (PositionSize N) → Type 0
  Within s sol hl success none = success ≡ false
  Within s sol hl success (some z) =
      (success ≡ true)
      × (le N s.min_position_usd z.position_size_usd ≡ true)
      × (le N (literal 1 0) z.leverage ≡ true)
      × (le N z.leverage s.max_leverage ≡ true)
      × (le N z.deployment_pct_used s.max_deployment_pct ≡ true)
      × (z.borrowed_usd ≡ sub z.position_size_usd z.per_leg_deployment_usd)
      × ((not z.was_capped_by_min
            || le N (mul z.per_leg_deployment_usd (literal 2 0)) (min_of N sol hl))
          ≡ true)

  -- The sizer's own limits.
  abbrev pub LeverageFrom : PositionSizer N → Number → Type 0
  LeverageFrom s x =
      (le N (literal 1 0) (clamp_leverage N s x) ≡ true)
      × (le N (clamp_leverage N s x) s.max_leverage ≡ true)

  clamp_leverage-LeverageFrom :
      (s : PositionSizer N) (x : Number)
      → le N (literal 1 0) s.max_leverage ≡ true
      → LeverageFrom s x
  unfolding clamp_leverage
  clamp_leverage-LeverageFrom s x h =
      ground (arith, le_refl N order s.max_leverage, le_refl N order (literal 1 0))

  scale_to_min-Within :
      (s : PositionSizer N) (sol hl pct leverage size : Number)
      → le N (literal 1 0) leverage ≡ true
      → le N leverage s.max_leverage ≡ true
      → le N pct s.max_deployment_pct ≡ true
      → let r = scale_to_min N s sol hl pct leverage size in Within s sol hl r.success r.size
  unfolding scale_to_min sized
  scale_to_min-Within s sol hl pct leverage size low high deployed =
      ground (arith, le_refl N order s.min_position_usd)

  -- If the sizer allows a leverage of 1, a calculated size is at least the minimum, its leverage lies
  -- between 1 and the maximum, the percentage that it is calculated with is at most the maximum, and
  -- it borrows what the leg's own deployment does not cover; a size that was scaled up to the minimum
  -- deploys at most the smaller balance over both legs. Exactly a success has a size.
  pub calculate_position_size-Within :
      (s : PositionSizer N) (sol hl : Number) (deployment given : Option Number)
      → le N (literal 1 0) s.max_leverage ≡ true
      → let r = calculate_position_size N s sol hl deployment given in
        Within s sol hl r.success r.size
  unfolding calculate_position_size sized
  calculate_position_size-Within s sol hl deployment given allowed =
      let x = number_or N given s.default_leverage in
      let leverage = clamp_leverage N s x in
      let wanted = number_or N deployment s.default_deployment_pct in
      let pct = min_of N wanted s.max_deployment_pct in
      let (low, high) = clamp_leverage-LeverageFrom s x allowed in
      let deployed = (le-min_of N order wanted s.max_deployment_pct).1 in
      let size = mul (div (mul (min_of N sol hl) pct) (literal 2 0)) leverage in
      ground (
        arith,
        low,
        high,
        deployed,
        scale_to_min-Within s sol hl pct leverage size low high deployed,
      )
