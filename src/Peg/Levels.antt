-- ===== src/Peg/Levels.antt =====
-- Which premiums are a depeg, and whom the monitor tells.
use asgard_hl_basisstrategy.Base.{
  ℕ, Bool, true, false, ◌&&◌, ◌||◌, not, ◌≡◌, List, [], Numbers, IsOrdered, le, zero_number, Result,
  ok, raises, if◌then◌else◌, arith, is_some,
}
use asgard_hl_basisstrategy.Positions.Rebalance.{Asset, is_lst}
use asgard_hl_basisstrategy.Peg.{
  PegCheckResult, LstMonitor, is_depegged, should_emergency_close, premium_of, grade, check_lst_peg,
}

module _ (N : Numbers) where
  open N use {Number, neg, lt}

  -- The thresholds in order: no warning lies beyond the critical threshold of its side, and the
  -- discounts are below the premiums.
  pub record AreSorted (m : LstMonitor N) : Type 0 where
    pub premiums : lt m.critical_premium m.warning_premium ≡ false
    pub discounts : lt (neg m.warning_discount) (neg m.critical_discount) ≡ false
    pub sides : lt (neg m.warning_discount) m.warning_premium ≡ true

  -- What a check says of a premium, and which callbacks it runs.
  abbrev pub Reports : LstMonitor N → Number → Bool → Result (PegCheckResult N × List ℕ) → Type 0
  Reports m p divides (raises e) = divides ≡ false
  Reports m p divides (ok (r, told)) =
      (divides ≡ true)
      × (is_depegged N r ≡ (le N m.warning_premium p || le N p (neg m.warning_discount)))
      × (should_emergency_close N r
          ≡ (le N m.critical_premium p || le N p (neg m.critical_discount)))
      × (is_some r.critical_threshold_crossed ≡ should_emergency_close N r)
      × (is_some r.warning_threshold_crossed
          ≡ (is_depegged N r && not (should_emergency_close N r)))
      × (told ≡ (
          if should_emergency_close N r
          then m.critical_callbacks
          else if is_depegged N r
          then m.warning_callbacks
          else []))

  -- With linearly ordered numbers and sorted thresholds, a check of a liquid staking token raises
  -- exactly at a SOL price of 0. Otherwise it reports a depeg exactly at a premium or a discount of at
  -- least the warning, asks for an emergency close exactly at one of at least the critical threshold,
  -- names the threshold of its status alone, and runs the callbacks of that status alone.
  pub check_lst_peg-Reports :
      (order : IsOrdered N) (asset : Asset) (lst sol_price : Number) (now : ℕ) (m : LstMonitor N)
      → AreSorted m
      → is_lst asset ≡ true
      → Reports m
          (premium_of N lst sol_price)
          (not (N.eq sol_price (zero_number N)))
          (check_lst_peg N asset lst sol_price now m)
  unfolding check_lst_peg grade
  check_lst_peg-Reports order asset lst sol_price now m sorted token =
      let p = premium_of N lst sol_price in
      ground (
        arith,
        token,
        sorted.premiums,
        sorted.discounts,
        sorted.sides,
        order.lt_split (neg m.warning_discount) p m.warning_premium,
        order.lt_split (neg m.warning_discount) (neg m.critical_discount) p,
        order.lt_split p m.critical_premium m.warning_premium,
        order.lt_split m.critical_premium p m.warning_premium,
      )
