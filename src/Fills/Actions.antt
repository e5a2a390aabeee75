-- ===== src/Fills/Actions.antt =====
-- When fills are accepted, flagged or unwound.
use asgard_hl_basisstrategy.Base.{
  ◌≡◌, Bool, ◌&&◌, ◌||◌, not, if◌then◌else◌, Numbers, zero_number, IsOrdered, lt-max_of, arith,
  is_some,
}
use asgard_hl_basisstrategy.Fills.{
  proceed, soft_stop, hard_stop, FillInfo, calculate_deviation, recalculate_apy_at_fills,
  validate_fills, validate_quick,
}

module _ (N : Numbers) (order : IsOrdered N) where
  open N use {Number, lt}

  -- The deviation of one leg from its expected price passes the limit.
  abbrev pub deviates : Number → FillInfo N → Bool
  deviates limit f = lt limit (calculate_deviation N f.filled_price f.expected_price)

  -- The fills proceed exactly when neither leg deviates beyond the limit; otherwise the position is
  -- stopped hard when the APY at the fill prices is negative, and softly when it is not. Only a hard
  -- stop makes the fills invalid and asks to unwind, a reason is given exactly on a stop, and the
  -- quick validation flags the same prices.
  pub validate_fills-action :
      (limit apy : Number) (a h : FillInfo N)
      → let r = validate_fills N limit a h apy in
        let stopped = deviates limit a || deviates limit h in
        let losing = lt (recalculate_apy_at_fills N a h apy) (zero_number N) in
        (r.action ≡ (if stopped then (if losing then hard_stop else soft_stop) else proceed))
        × (r.is_valid ≡ not (stopped && losing))
        × (r.should_unwind ≡ (stopped && losing))
        × (is_some r.soft_stop_reason ≡ stopped)
        × ((validate_quick N limit a.filled_price h.filled_price a.expected_price
              h.expected_price).soft_stop_triggered
            ≡ stopped)
  unfolding validate_fills validate_quick
  validate_fills-action limit apy a h = ground (
    arith,
    lt-max_of N order limit (calculate_deviation N a.filled_price a.expected_price)
        (calculate_deviation N h.filled_price h.expected_price),
  )
