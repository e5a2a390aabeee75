-- ===== src/Peg.antt =====
-- bot/core/lst_monitor.py: class LSTMonitor. A callback is a number; what it does, and an exception that
-- it raises, is swallowed. Logging and the text of `reason` are left out.
pub mod Levels
use asgard_hl_basisstrategy.Base.{
  ℕ, String, Bool, true, false, Option, none, some, List, [], ◌∷◌, ◌++◌, map, not, ◌||◌, Numbers,
  number_or, zero_number, le, Result, ok, raises, exception, value_error, if◌then◌else◌,
}
use asgard_hl_basisstrategy.Positions.Rebalance.{Asset, sol, jitosol, jupsol, inf, is_lst}

pub data PegStatus : Type 0 where
  normal warning critical : PegStatus

pub data Side : Type 0 where
  premium discount : Side

module _ (N : Numbers) where
  open N use {Number, literal, add, sub, div, neg, lt}

  pub record PegCheckResult : Type 0 where
    pub lst_asset : Asset
    pub lst_price_usd : Number
    pub sol_price_usd : Number
    pub premium_pct : Number
    pub status : PegStatus
    pub warning_threshold_crossed : Option Side
    pub critical_threshold_crossed : Option Side
    pub timestamp : ℕ

  -- The property `is_depegged`.
  abbrev pub is_depegged : PegCheckResult → Bool
  is_depegged r = elim r.status [ normal ↦ false | warning ↦ true | critical ↦ true ]

  -- The property `is_critical`, and `should_emergency_close`.
  abbrev pub should_emergency_close : PegCheckResult → Bool
  should_emergency_close r = elim r.status [ normal ↦ false | warning ↦ false | critical ↦ true ]

  pub record LstMonitor : Type 0 where
    pub warning_premium : Number
    pub critical_premium : Number
    pub warning_discount : Number
    pub critical_discount : Number
    pub warning_callbacks : List ℕ
    pub critical_callbacks : List ℕ

  -- `LSTMonitor(...)`: a missing threshold, or one of 0, is the default.
  unfoldable pub init : Option Number → Option Number → Option Number → Option Number → LstMonitor
  init wp cp wd cd = record {
    warning_premium = number_or N wp (literal 3 2);
    critical_premium = number_or N cp (literal 5 2);
    warning_discount = number_or N wd (literal 1 2);
    critical_discount = number_or N cd (literal 2 2);
    warning_callbacks = [];
    critical_callbacks = [];
  }

  unfoldable pub add_warning_callback : ℕ → LstMonitor → LstMonitor
  add_warning_callback k m = record m { warning_callbacks = m.warning_callbacks ++ k ∷ [] }

  unfoldable pub add_critical_callback : ℕ → LstMonitor → LstMonitor
  add_critical_callback k m = record m { critical_callbacks = m.critical_callbacks ++ k ∷ [] }

  -- The premium of a token over SOL.
  abbrev pub premium_of : Number → Number → Number
  premium_of lst sol_price = sub (div lst sol_price) (literal 1 0)

  -- The status, with the side on which the warning or the critical threshold was crossed.
  unfoldable pub grade : LstMonitor → Number → PegStatus × Option Side × Option Side
  grade m p =
      if le N m.critical_premium p
      then (critical, none, some premium)
      else if le N m.warning_premium p
      then (warning, some premium, none)
      else if le N p (neg m.critical_discount)
      then (critical, none, some discount)
      else if le N p (neg m.warning_discount)
      then (warning, some discount, none)
      else (normal, none, none)

  abbrev pub callbacks_of : PegStatus → LstMonitor → List ℕ
  callbacks_of normal m = []
  callbacks_of warning m = m.warning_callbacks
  callbacks_of critical m = m.critical_callbacks

  -- The result and the callbacks that are run with it.
  unfoldable pub check_lst_peg :
      Asset → Number → Number → ℕ → LstMonitor → Result (PegCheckResult × List ℕ)
  unfolding grade
  check_lst_peg asset lst sol_price now m =
      if not (is_lst asset)
      then raises (value_error "Asset is not an LST")
      else if N.eq sol_price (zero_number N)
      then raises (exception "division by zero")
      else let (status, warned, crossed) = grade m (premium_of lst sol_price) in
        ok (
          record {
            lst_asset = asset;
            lst_price_usd = lst;
            sol_price_usd = sol_price;
            premium_pct = premium_of lst sol_price;
            status = status;
            warning_threshold_crossed = warned;
            critical_threshold_crossed = crossed;
            timestamp = now;
          },
          callbacks_of status m,
        )

  -- The loop over LST_ASSETS; prices are a function from the assets that have one.
  unfoldable pub check_assets :
      List Asset
      → (Asset → Option Number)
      → Number
      → ℕ
      → LstMonitor
      → Result (List (PegCheckResult × List ℕ))
  check_assets [] prices sol_price now m = ok []
  check_assets (a ∷ as') prices sol_price now m =
      let rest = check_assets as' prices sol_price now m in
      elim (prices a) [
        | none ↦ rest
        | some price ↦ elim (check_lst_peg a price sol_price now m) [
          | raises e ↦ raises e
          | ok r ↦ elim rest [ raises e ↦ raises e | ok rs ↦ ok (r ∷ rs) ]
        ]
      ]

  unfoldable pub check_all_lst_pegs :
      (Asset → Option Number) → ℕ → LstMonitor → Result (List (PegCheckResult × List ℕ))
  unfolding check_assets
  check_all_lst_pegs prices now m = elim (prices sol) [
    | none ↦ raises (value_error "SOL price required for peg checks")
    | some price ↦ check_assets (jitosol ∷ jupsol ∷ inf ∷ []) prices price now m
  ]

  pub record LstDeltaAdjustment : Type 0 where
    pub original_delta_usd : Number
    pub adjusted_delta_usd : Number
    pub adjustment_usd : Number

  -- The two divisions raise by 0.
  unfoldable pub calculate_effective_delta :
      Asset → Number → Number → Number → Result LstDeltaAdjustment
  calculate_effective_delta asset delta lst sol_price =
      if not (is_lst asset)
      then ok (record {
        original_delta_usd = delta;
        adjusted_delta_usd = delta;
        adjustment_usd = zero_number N;
      })
      else if N.eq sol_price (zero_number N) || N.eq (div lst sol_price) (zero_number N)
      then raises (exception "division by zero")
      else ok (record {
        original_delta_usd = delta;
        adjusted_delta_usd = div delta (div lst sol_price);
        adjustment_usd = sub (div delta (div lst sol_price)) delta;
      })
