-- ===== src/Positions/Spares.antt =====
-- `open_position` leaves the other positions as they were.
use asgard_hl_basisstrategy.Base.{
  str_eq, lookup, lookup-insert, ℕ, String, ◌≡◌, refl, false, Option, none, some, str-eq_iff,
  Numbers, Result, ok, raises, arith, inl, inr, Bool-cases,
}
use asgard_hl_basisstrategy.Positions.Types.{
  AsgardPosition, HyperliquidPosition, ArbitrageOpportunity, OpenPositionResult,
  HyperliquidOpenResult, Venues, PositionManagerResult, PositionManager,
}
use asgard_hl_basisstrategy.Positions.Open.{
  Sizes, store_position, store_opened, finish_open, open_short_leg, open_legs, open_position,
  after_long, sizes_of,
}
use asgard_hl_basisstrategy.Positions.Legs.{open_hyperliquid_position, validate_position_entry}

module _ (N : Numbers) where
  open N use {Number}

  -- The other positions are as they were.
  abbrev pub Spares : String → String → PositionManager N → PositionManager N → Type 0
  Spares j id m m' = str_eq id j ≡ false → lookup j m'.positions ≡ lookup j m.positions

  store_opened-Spares :
      (j : String) (z : Sizes N) (o : ArbitrageOpportunity N) (p : AsgardPosition N)
      (hl : HyperliquidOpenResult N) (h : Option (HyperliquidPosition N)) (m : PositionManager N)
      → Spares j z.position_id m (store_opened N z o p hl h m).0
  unfolding store_opened store_position
  store_opened-Spares j z o p hl none m other = refl
  store_opened-Spares j z o p hl (some h) m other = ground (
    arith,
    lookup-insert z.position_id j (store_position N z o p hl h m).1 m.positions,
    str-eq_iff z.position_id j,
  )

  finish_open-Spares :
      (j : String) (z : Sizes N) (o : ArbitrageOpportunity N) (p : AsgardPosition N)
      (hl : HyperliquidOpenResult N) (m : PositionManager N)
      (checked : Result (PositionManagerResult N))
      → Spares j z.position_id m (finish_open N z o p hl m checked).0
  unfolding finish_open
  finish_open-Spares j z o p hl m (raises e) other = refl
  finish_open-Spares j z o p hl m (ok validation) other = elim (Bool-cases validation.success) [
    | inl good ↦ rw (good, finish_open) (store_opened-Spares j z o p hl hl.position_info m other)
    | inr bad ↦ rw (bad, finish_open) refl
  ]

  open_short_leg-Spares :
      (j : String) (z : Sizes N) (o : ArbitrageOpportunity N) (p : AsgardPosition N) (v : Venues N)
      (m : PositionManager N)
      → Spares j z.position_id m (open_short_leg N z o p v m).0
  unfolding open_short_leg
  open_short_leg-Spares j z o p v m other =
      let (calls, hl) = open_hyperliquid_position N "SOL" z.sol_size (N.truncate o.leverage) v in
      elim (Bool-cases hl.success) [
        | inl good ↦
            rw (good, open_short_leg)
              (finish_open-Spares j z o p hl m
                (validate_position_entry N m.fill_limit p hl o z.consensus) other)
        | inr bad ↦ rw (bad, open_short_leg) refl
      ]

  after_long-Spares :
      (j : String) (z : Sizes N) (o : ArbitrageOpportunity N) (v : Venues N) (m : PositionManager N)
      (p : Option (AsgardPosition N))
      → Spares j z.position_id m (after_long N z o v m p).0
  unfolding after_long
  after_long-Spares j z o v m none other = refl
  after_long-Spares j z o v m (some p) other = open_short_leg-Spares j z o p v m other

  open_legs-Spares :
      (j : String) (z : Sizes N) (o : ArbitrageOpportunity N) (v : Venues N) (m : PositionManager N)
      (long : Result (OpenPositionResult N))
      → Spares j z.position_id m (open_legs N z o v m long).0
  unfolding open_legs
  open_legs-Spares j z o v m (raises e) other = refl
  open_legs-Spares j z o v m (ok a) other = elim (Bool-cases a.success) [
    | inl good ↦ rw (good, open_legs) (after_long-Spares j z o v m a.position other)
    | inr bad ↦ rw (bad, open_legs) refl
  ]

  pub open_position-Spares :
      (j id : String) (now : ℕ) (o : ArbitrageOpportunity N) (v : Venues N) (m : PositionManager N)
      → Spares j id m (open_position N id now o v m).0
  unfolding open_position
  open_position-Spares j id now o v m other =
      ground (arith, open_legs-Spares j (sizes_of N id now o v) o v m v.open_long other)
