-- ===== src/Positions/OpenLaws.antt =====
-- What `open_position` leaves behind: the stored position, the requests made, and the cases in which
-- a leg stays open although no position is stored.
use asgard_hl_basisstrategy.Base.{
  ◌||◌, not, lookup, lookup-insert_self, ℕ, String, ◌≡◌, refl, Bool, true, false, Option, none,
  some, List, [], ◌∷◌, ◌++◌, not, any, is_some, if◌then◌else◌, Numbers, zero_number, Result, ok,
  raises, arith, inl, inr, Bool-cases, any-append,
}
use asgard_hl_basisstrategy.Positions.Types.{
  AsgardPosition, HyperliquidPosition, ArbitrageOpportunity, OpenPositionResult,
  HyperliquidOpenResult, Venues, VenueCall, checks_consensus, opens_long, opens_short, closes_short,
  closes_long, PositionManagerResult, PositionManager,
}
use asgard_hl_basisstrategy.Positions.Open.{
  Sizes, store_position, store_opened, emergency_close, finish_open, open_short_leg, open_legs,
  open_position, after_long, sizes_of,
}
use asgard_hl_basisstrategy.Positions.Legs.{
  after_order, open_hyperliquid_position, validate_position_entry, failed_at,
}

module _ (N : Numbers) where
  abbrev pub opens_a_short : VenueCall N → Bool
  opens_a_short (opens_short coin size) = true
  opens_a_short _ = false

  abbrev pub closes_a_long : VenueCall N → Bool
  closes_a_long (closes_long pda) = true
  closes_a_long _ = false

  abbrev pub closes_a_leg : VenueCall N → Bool
  closes_a_leg (closes_long pda) = true
  closes_a_leg (closes_short coin size) = true
  closes_a_leg _ = false

  abbrev pub Outcome : Type 0
  Outcome = PositionManager N × List (VenueCall N) × Result (PositionManagerResult N)

  -- A success has stored the position that it returns, and no request of it closed a leg. A failure
  -- has stored nothing, and has asked to close the long if it came as far as ordering the short.
  abbrev pub Returned :
      String
      → PositionManager N
      → PositionManager N
      → List (VenueCall N)
      → PositionManagerResult N
      → Bool
      → Type 0
  Returned id m m' calls r true =
      (lookup id m'.positions ≡ r.position)
      × (is_some r.position ≡ true)
      × (any opens_a_short calls ≡ true)
      × (any closes_a_leg calls ≡ false)
  Returned id m m' calls r false =
      (m' ≡ m) × ((not (any opens_a_short calls) || any closes_a_long calls) ≡ true)

  -- An exception leaves the manager as it was.
  abbrev pub Settled : String → PositionManager N → Outcome → Type 0
  Settled id m (m', calls, raises e) = m' ≡ m
  Settled id m (m', calls, ok r) = Returned id m m' calls r r.success

  store_opened-Settled :
      (z : Sizes N) (o : ArbitrageOpportunity N) (p : AsgardPosition N)
      (hl : HyperliquidOpenResult N) (h : Option (HyperliquidPosition N)) (m : PositionManager N)
      (before : List (VenueCall N))
      → any opens_a_short before ≡ true
      → any closes_a_leg before ≡ false
      → let (m', calls, result) = store_opened N z o p hl h m in
        Settled z.position_id m (m', before ++ calls, result)
  unfolding store_opened store_position
  store_opened-Settled z o p hl none m before ordered kept = refl
  store_opened-Settled z o p hl (some h) m before ordered kept = (
    lookup-insert_self z.position_id (store_position N z o p hl h m).1 m.positions,
    refl,
    ground (arith, any-append opens_a_short before []),
    ground (arith, any-append closes_a_leg before []),
  )

  -- `finish_open` after requests that ordered the short and closed nothing.
  finish_open-Settled :
      (z : Sizes N) (o : ArbitrageOpportunity N) (p : AsgardPosition N)
      (hl : HyperliquidOpenResult N) (m : PositionManager N) (before : List (VenueCall N))
      (checked : Result (PositionManagerResult N))
      → any opens_a_short before ≡ true
      → any closes_a_leg before ≡ false
      → let (m', calls, result) = finish_open N z o p hl m checked in
        Settled z.position_id m (m', before ++ calls, result)
  unfolding finish_open emergency_close
  finish_open-Settled z o p hl m before (raises e) ordered kept = refl
  finish_open-Settled z o p hl m before (ok validation) ordered kept =
      elim (Bool-cases validation.success) [
        | inl good ↦
            rw (good, finish_open)
              (store_opened-Settled z o p hl hl.position_info m before ordered kept)
        | inr bad ↦
            rw (bad, finish_open)
              (refl, ground (arith, any-append closes_a_long before (emergency_close N z p)))
      ]

  open_hyperliquid_position-calls :
      (coin : String) (size leverage : N.Number) (v : Venues N)
      → let calls = (open_hyperliquid_position N coin size leverage v).0 in
        (any opens_a_short calls ≡ true) × (any closes_a_leg calls ≡ false)
  unfolding open_hyperliquid_position after_order
  open_hyperliquid_position-calls coin size leverage v = ground arith

  open_short_leg-Settled :
      (z : Sizes N) (o : ArbitrageOpportunity N) (p : AsgardPosition N) (v : Venues N)
      (m : PositionManager N)
      → Settled z.position_id m (open_short_leg N z o p v m)
  unfolding open_short_leg
  open_short_leg-Settled z o p v m =
      let size = z.sol_size in
      let asked = open_hyperliquid_position-calls "SOL" size (N.truncate o.leverage) v in
      let (calls, hl) = open_hyperliquid_position N "SOL" size (N.truncate o.leverage) v in
      let checked = validate_position_entry N m.fill_limit p hl o z.consensus in
      elim (Bool-cases hl.success) [
        | inl good ↦
            rw (good, open_short_leg) (finish_open-Settled z o p hl m calls checked asked.0 asked.1)
        | inr bad ↦
            rw (bad, open_short_leg)
              (
                refl,
                ground (arith, any-append closes_a_long calls (closes_long p.position_pda ∷ [])),
              )
      ]

  after_long-Settled :
      (z : Sizes N) (o : ArbitrageOpportunity N) (v : Venues N) (m : PositionManager N)
      (p : Option (AsgardPosition N))
      → Settled z.position_id m (after_long N z o v m p)
  unfolding after_long
  after_long-Settled z o v m none = refl
  after_long-Settled z o v m (some p) = open_short_leg-Settled z o p v m

  open_legs-Settled :
      (z : Sizes N) (o : ArbitrageOpportunity N) (v : Venues N) (m : PositionManager N)
      (long : Result (OpenPositionResult N))
      → Settled z.position_id m (open_legs N z o v m long)
  unfolding open_legs
  open_legs-Settled z o v m (raises e) = refl
  open_legs-Settled z o v m (ok a) = elim (Bool-cases a.success) [
    | inl good ↦ rw (good, open_legs) (after_long-Settled z o v m a.position)
    | inr bad ↦ rw (bad, open_legs) (refl, refl)
  ]

  -- Two requests that order no short and close nothing do not matter.
  Settled-before :
      (id : String) (m m' : PositionManager N) (x y : N.Number) (calls : List (VenueCall N))
      (result : Result (PositionManagerResult N))
      → Settled id m (m', calls, result)
      → Settled id m (m', checks_consensus ∷ opens_long x y ∷ calls, result)
  Settled-before id m m' x y calls (raises e) h = h
  Settled-before id m m' x y calls (ok r) h = h

  guarded-Settled :
      (id : String) (m : PositionManager N) (passed unpriced : Bool) (traded : Outcome)
      → Settled id m traded
      → Settled id m (
          if not passed
          then (m, [], ok (failed_at N "Preflight checks not passed" "preflight"))
          else if unpriced
          then (m, checks_consensus ∷ [], ok (failed_at N "Cannot determine token price" "pricing"))
          else traded)
  guarded-Settled id m false unpriced traded h = (refl, refl)
  guarded-Settled id m true true traded h = (refl, refl)
  guarded-Settled id m true false traded h = h

  -- However it ends, opening a position leaves one of three outcomes. An exception stores nothing. A
  -- success stores the position it returns under the new id, has ordered a short, and has closed no
  -- leg. A failure stores nothing, and if the short was ordered it has asked to close the long.
  pub open_position-Settled :
      (id : String) (now : ℕ) (o : ArbitrageOpportunity N) (v : Venues N) (m : PositionManager N)
      → Settled id m (open_position N id now o v m)
  unfolding open_position
  open_position-Settled id now o v m =
      let z = sizes_of N id now o v in
      let (m', calls, result) = open_legs N z o v m v.open_long in
      guarded-Settled id m o.preflight_checks_passed (N.eq z.price (zero_number N))
        (m', checks_consensus ∷ opens_long z.collateral_usd o.leverage ∷ calls, result)
        (Settled-before id m m' z.collateral_usd o.leverage calls result
          (open_legs-Settled z o v m v.open_long))
