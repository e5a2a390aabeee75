-- ===== src/Tests/Peg.antt =====
-- The monitor of liquid staking tokens at concrete prices.
use asgard_hl_basisstrategy.Base.{true, ◌≡◌, refl, none, some, [], ◌∷◌}
use asgard_hl_basisstrategy.Positions.Rebalance.{jitosol}
use asgard_hl_basisstrategy.Peg.{
  LstMonitor, init, add_warning_callback, add_critical_callback, premium_of, grade, check_lst_peg,
}
use asgard_hl_basisstrategy.Peg.Levels.{AreSorted, Reports, check_lst_peg-Reports}
use asgard_hl_basisstrategy.Tests.Decimals.{pos, neg_ℤ, whole, decimals, decimals-IsOrdered}

abbrev monitor : LstMonitor decimals
monitor = record {
  warning_premium = pos 30000;
  critical_premium = pos 50000;
  warning_discount = pos 10000;
  critical_discount = pos 20000;
  warning_callbacks = 7 ∷ [];
  critical_callbacks = 8 ∷ [];
}

-- The thresholds that are the default, or 0, which is a missing one.
init_test :
    add_critical_callback decimals 8 (
      add_warning_callback decimals 7 (init decimals none (some (whole 0)) none (some (pos 20000))))
    ≡ monitor
unfolding init add_warning_callback add_critical_callback
init_test = refl

-- A token at 98.5 percent of SOL's price is depegged.
grade_test :
    (grade decimals monitor (premium_of decimals (whole 197) (whole 200)))
    ≡ grade decimals monitor (neg_ℤ (pos 15000))
unfolding grade
grade_test = refl

sorted : AreSorted decimals monitor
sorted = record { premiums = refl; discounts = refl; sides = refl }

check_lst_peg-Reports_example :
    Reports decimals monitor
      (premium_of decimals (whole 197) (whole 200))
      true
      (check_lst_peg decimals jitosol (whole 197) (whole 200) 5 monitor)
check_lst_peg-Reports_example =
    check_lst_peg-Reports decimals decimals-IsOrdered jitosol (whole 197) (whole 200) 5 monitor
      sorted refl
