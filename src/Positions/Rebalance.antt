-- ===== src/Positions/Rebalance.antt =====
-- bot/core/position_manager.py: the net exposure of a position and `rebalance_if_needed`. The
-- position's asset, of shared/models/common.py, is an argument, `asset`.
use asgard_hl_basisstrategy.Base.{
  String, Bool, true, false, Option, none, some, ◌≡◌, ◌||◌, ◌&&◌, refl, sym, ◌∙◌, not,
  if◌then◌else◌, str_eq, Numbers, zero_number, le, Result, ok, raises, Error, arith,
}
use asgard_hl_basisstrategy.Positions.Types.{AsgardPosition, HyperliquidPosition, CombinedPosition}

pub data Asset : Type 0 where
  sol jitosol jupsol inf : Asset

-- `get_asset_metadata(asset).is_lst`
abbrev pub is_lst : Asset → Bool
is_lst sol = false
is_lst jitosol = true
is_lst jupsol = true
is_lst inf = true

-- Whether one of two tests gives a name other than "neutral".
sided_iff :
    (b c : Bool)
    → not (str_eq (if b then "long_heavy" else if c then "short_heavy" else "neutral") "neutral")
      ≡ (b || c)
sided_iff true c = refl
sided_iff false true = refl
sided_iff false false = refl

module _ (N : Numbers) where
  open N use {Number, add, sub, mul, div, neg, abs, lt, literal}

  pub record DeltaInfo : Type 0 where
    pub delta_usd : Number
    pub delta_ratio : Number
    pub long_value_usd : Number
    pub short_value_usd : Number
    pub lst_appreciation_usd : Number
    pub effective_delta_usd : Number
    pub threshold_warning : Number
    pub threshold_critical : Number

  -- Properties of DeltaInfo.
  abbrev pub is_neutral : DeltaInfo → Bool
  is_neutral d = le N (abs d.delta_ratio) d.threshold_warning

  unfoldable pub needs_rebalance : DeltaInfo → Bool
  needs_rebalance d = lt d.threshold_warning (abs d.delta_ratio)

  abbrev pub is_critical : DeltaInfo → Bool
  is_critical d = lt d.threshold_critical (abs d.delta_ratio)

  unfoldable pub drift_direction : DeltaInfo → String
  drift_direction d =
      if lt d.threshold_warning d.delta_ratio
      then "long_heavy"
      else if lt d.delta_ratio (neg d.threshold_warning)
      then "short_heavy"
      else "neutral"

  -- What the text of a result's reason says, with the numbers that it shows.
  pub data Reason : Type 0 where
    within_threshold : Number → Reason
    too_costly : Number → Number → Reason
    not_implemented : Reason
    execution_failed : Error → Reason

  pub record RebalanceResult : Type 0 where
    pub rebalanced : Bool
    pub reason : Reason
    pub drift_cost : Option Number
    pub rebalance_cost : Option Number
    pub tx_signature : Option String
    pub error : Option String

  -- The properties `current_value_usd` and `size_usd` of the two legs.
  abbrev pub current_value_usd : AsgardPosition N → Number
  current_value_usd a = mul a.token_a_amount a.current_token_a_price

  abbrev pub size_usd : HyperliquidPosition N → Number
  size_usd h = mul (abs h.size_sol) h.entry_px

  abbrev pub lst_appreciation : Asset → AsgardPosition N → Number
  lst_appreciation asset a =
      if is_lst asset
      then sub (current_value_usd a) (mul a.token_a_amount a.entry_price_token_a)
      else zero_number N

  unfoldable pub get_position_delta : Asset → CombinedPosition N → DeltaInfo
  get_position_delta asset p =
      let long = current_value_usd p.asgard in
      let short = size_usd p.hyperliquid in
      let appreciation = lst_appreciation asset p.asgard in
      let effective = add (sub long short) appreciation in
      let size = p.asgard.position_size_usd in
      record {
        delta_usd = sub long short;
        delta_ratio = if lt (zero_number N) size then div effective size else zero_number N;
        long_value_usd = long;
        short_value_usd = short;
        lst_appreciation_usd = appreciation;
        effective_delta_usd = effective;
        threshold_warning = literal 5 3;
        threshold_critical = literal 2 2;
      }

  abbrev pub calculate_drift_cost : DeltaInfo → Number
  calculate_drift_cost d = mul (abs d.effective_delta_usd) (literal 1 4)

  abbrev pub calculate_rebalance_cost : CombinedPosition N → Number
  calculate_rebalance_cost p = add (literal 10 0) (mul p.asgard.position_size_usd (literal 1 3))

  unfoldable pub execute_rebalance : CombinedPosition N → DeltaInfo → Result RebalanceResult
  execute_rebalance p d = ok (record {
    rebalanced = false;
    reason = not_implemented;
    drift_cost = none;
    rebalance_cost = none;
    tx_signature = none;
    error = none;
  })

  -- A result that did nothing, with the costs that were compared.
  abbrev pub kept : Reason → Option Number → Option Number → RebalanceResult
  kept why drift cost = record {
    rebalanced = false;
    reason = why;
    drift_cost = drift;
    rebalance_cost = cost;
    tx_signature = none;
    error = none;
  }

  unfoldable pub rebalance_if_needed : Asset → CombinedPosition N → RebalanceResult
  rebalance_if_needed asset p =
      let d = get_position_delta asset p in
      let drift = calculate_drift_cost d in
      let cost = calculate_rebalance_cost p in
      if not (needs_rebalance d)
      then kept (within_threshold d.delta_ratio) none none
      else if le N drift cost
      then kept (too_costly drift cost) (some drift) (some cost)
      else elim (execute_rebalance p d) [
        | ok r ↦ r
        | raises e ↦ kept (execution_failed e) (some drift) (some cost)
      ]

  needs_rebalance-drift_direction :
      (d : DeltaInfo)
      → ((t a : Number) → lt t (abs a) ≡ (lt t a || lt a (neg t)))
      → needs_rebalance d ≡ not (str_eq (drift_direction d) "neutral")
  unfolding needs_rebalance drift_direction
  needs_rebalance-drift_direction d split =
      split d.threshold_warning d.delta_ratio
      ∙ sym (
          sided_iff (lt d.threshold_warning d.delta_ratio)
            (lt d.delta_ratio (neg d.threshold_warning)))

  -- `rebalance_if_needed` never rebalances: it reports the two costs exactly when the exposure leans
  -- to one side and its cost is at most that of a rebalance. Its reason is the ratio within the
  -- threshold when the exposure leans to neither side, else those costs or that the execution is
  -- missing. This assumes that a bound is below an absolute value exactly when it is below the
  -- number or the number is below its negative.
  pub rebalance_if_needed_lem :
      (asset : Asset) (p : CombinedPosition N)
      → ((t a : Number) → lt t (abs a) ≡ (lt t a || lt a (neg t)))
      → let d = get_position_delta asset p in
        let r = rebalance_if_needed asset p in
        let drift = calculate_drift_cost d in
        let cost = calculate_rebalance_cost p in
        let leans = not (str_eq (drift_direction d) "neutral") in
        (r.rebalanced ≡ false)
        × (r.drift_cost ≡ (if leans && le N drift cost then some drift else none))
        × (r.rebalance_cost ≡ (if leans && le N drift cost then some cost else none))
        × (r.reason ≡ (
            if not leans
            then within_threshold d.delta_ratio
            else if le N drift cost
            then too_costly drift cost
            else not_implemented))
  unfolding rebalance_if_needed execute_rebalance
  rebalance_if_needed_lem asset p split =
      ground (arith, needs_rebalance-drift_direction (get_position_delta asset p) split)
