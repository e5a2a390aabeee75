-- ===== src/Positions/CloseLaws.antt =====
-- Both legs are always tried, the short first; a position is reported closed when either leg is.
use asgard_hl_basisstrategy.Base.{
  str_eq, lookup, lookup-insert, lookup-insert_self, ℕ, String, ◌≡◌, Bool, false, ◌||◌, some, List,
  [], ◌∷◌, str-eq_iff, if◌then◌else◌, Numbers, Result, ok, raises, arith,
}
use asgard_hl_basisstrategy.Positions.Types.{
  opened, closed, stuck, ExitReason, CombinedPosition, OrderResult, ClosePositionResult, Venues,
  VenueCall, closes_short, closes_long, PositionManagerResult, PositionManager,
}
use asgard_hl_basisstrategy.Positions.Close.{
  close_hyperliquid_position, close_asgard_position, close_legs, close_position,
}

module _ (N : Numbers) where
  -- Whether a venue confirmed that its leg is closed.
  abbrev pub short_closed : Result (OrderResult N) → Bool
  short_closed (ok r) = r.success
  short_closed (raises e) = false

  abbrev pub long_closed : Result (ClosePositionResult N) → Bool
  long_closed (ok r) = r.success
  long_closed (raises e) = false

  success-short :
      (v : Venues N) → (close_hyperliquid_position N v).success ≡ short_closed v.close_short
  unfolding close_hyperliquid_position
  success-short v = ground arith

  success-long : (v : Venues N) → (close_asgard_position N v).success ≡ long_closed v.close_long
  unfolding close_asgard_position
  success-long v = ground arith

  abbrev pub any_leg_closed : Venues N → Bool
  any_leg_closed v = short_closed v.close_short || long_closed v.close_long

  -- The position after a close: stuck only if neither venue confirmed its leg.
  abbrev pub after_close : ExitReason → ℕ → Venues N → CombinedPosition N → CombinedPosition N
  after_close reason now v p = record p {
    status = if any_leg_closed v then closed else stuck;
    exit_reason = some reason;
    exit_time = if any_leg_closed v then some now else p.exit_time;
  }

  abbrev pub Closes :
      String
      → String
      → ExitReason
      → ℕ
      → Venues N
      → PositionManager N
      → CombinedPosition N
      → PositionManager N × List (VenueCall N) × PositionManagerResult N
      → Type 0
  Closes id j reason now v m p (m', calls, r) =
      (calls
        ≡ closes_short p.hyperliquid.coin (N.round 6 (N.abs p.hyperliquid.size_sol))
          ∷ closes_long p.asgard.position_pda
          ∷ [])
      × (r.success ≡ any_leg_closed v)
      × (lookup j m'.positions
          ≡ (if str_eq id j then some (after_close reason now v p) else lookup j m.positions))

  pub close_legs_lem :
      (id j : String) (reason : ExitReason) (now : ℕ) (v : Venues N) (m : PositionManager N)
      (p : CombinedPosition N)
      → Closes id j reason now v m p (close_legs N id reason now p v m)
  unfolding close_legs
  close_legs_lem id j reason now v m p = ground (
    arith,
    success-short v,
    success-long v,
    str-eq_iff id j,
    lookup-insert_self id (after_close reason now v p) m.positions,
    lookup-insert id j (after_close reason now v p) m.positions,
  )

  -- Closing an open position requests both legs, the short first, whatever the venues answer. It
  -- reports success exactly when at least one venue confirmed its leg, and the position then is
  -- CLOSED with an exit time; otherwise it is STUCK. The exit reason is kept, and no other position
  -- changes.
  pub close_position_lem :
      (id j : String) (reason : ExitReason) (now : ℕ) (v : Venues N) (m : PositionManager N)
      (p : CombinedPosition N)
      → lookup id m.positions ≡ some p
      → p.status ≡ opened
      → Closes id j reason now v m p (close_position N id reason now v m)
  unfolding close_position
  close_position_lem id j reason now v m p found is_open =
      rw (found, close_position) (rw is_open (close_legs_lem id j reason now v m p))
