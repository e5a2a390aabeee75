-- ===== src/Risk.antt =====
-- bot/core/risk_engine.py: class RiskEngine. A method reads the clock once here, at `now`. A check
-- gives the new engine, and raises where it reads an attribute that a leg does not have.
pub mod Types
pub mod Exit
pub mod Levels
pub mod Proximity
pub mod Decisions
pub use Types.*
use Prim.Native.String.{◌++◌ as str_append}
use asgard_hl_basisstrategy.Base.{
  insert, lookup, remove, ℕ, ◌-◌, ◌*◌, String, Bool, true, false, ◌&&◌, Option, none, some, List,
  [], ◌∷◌, filter, not, leb, ltb, str_eq, is_some, or_else, if◌then◌else◌, Numbers, zero_number, le,
  attribute_error, Result, ok, raises,
}
use asgard_hl_basisstrategy.Positions.Types.{
  ExitReason, chain_outage, health_factor, margin_fraction, lst_depeg, price_deviation,
  negative_apy, funding_flip,
}

-- A truthy text.
abbrev pub nonempty : Option String → Bool
nonempty none = false
nonempty (some s) = not (str_eq s "")

-- `f"{user_id}:{name}" if user_id else name`
unfoldable pub proximity_key : Option String → String → String
proximity_key none name = name
proximity_key (some u) name = if not (str_eq u "") then str_append u (str_append ":" name) else name

-- `LIQUIDATION_PROXIMITY_DURATION`, in microseconds.
abbrev pub proximity_duration : ℕ
proximity_duration = 20 * 1000000

-- `(utcnow() - start).total_seconds() >= 20`
abbrev pub lasted : Option ℕ → ℕ → Bool
lasted none now = false
lasted (some start) now = leb proximity_duration (now - start)

module _ (N : Numbers) where
  open N use {Number, literal, add, sub, mul, div, abs, lt, eq}

  -- `value or attribute`: a missing value and 0 fall back to the attribute.
  unfoldable pub value_or : Option Number → Result Number → Result Number
  value_or none attribute = attribute
  value_or (some x) attribute = if eq x (zero_number N) then attribute else ok x

  abbrev pub attribute {ℓ} : {A : Type ℓ} → String → Option A → Result A
  attribute name none = raises (attribute_error name)
  attribute name (some a) = ok a

  unfoldable pub update_proximity_tracking :
      String → Bool → ℕ → RiskEngine N → RiskEngine N × Option ℕ
  update_proximity_tracking key in_proximity now e =
      if in_proximity
      then elim (lookup key e.proximity_start_times) [
        | none ↦
            (record e { proximity_start_times = insert key now e.proximity_start_times }, some now)
        | some start ↦ (e, some start)
      ]
      else (record e { proximity_start_times = remove key e.proximity_start_times }, none)

  unfoldable pub health_level : RiskEngine N → Number → RiskLevel
  health_level e hf =
      if le N hf e.critical_health_factor
      then critical
      else if le N hf e.emergency_health_factor
      then critical
      else if le N hf e.min_health_factor
      then warning
      else normal

  unfoldable pub margin_level : RiskEngine N → Number → RiskLevel
  margin_level e mf =
      if le N mf (mul e.margin_fraction_threshold (literal 5 1))
      then critical
      else if le N mf e.margin_fraction_threshold
      then warning
      else normal

  -- `threshold * (1 + LIQUIDATION_PROXIMITY_PCT)`
  abbrev pub proximity_threshold : Number → Number
  proximity_threshold t = mul t (add (literal 1 0) (literal 20 2))

  -- The tracking and the result, which the two checks share.
  unfoldable pub checked :
      RiskLevel
      → Number
      → Number
      → Number
      → String
      → ℕ
      → RiskEngine N
      → RiskEngine N × CheckResult N
  checked level x threshold distance key now e =
      let in_proximity = le N x (proximity_threshold threshold) in
      let (e', start) = update_proximity_tracking key in_proximity now e in
      (
        e',
        record {
          level = level;
          value = x;
          threshold = threshold;
          distance = distance;
          in_proximity = in_proximity && lasted start now;
          proximity_start_time = start;
        },
      )

  unfoldable pub check_asgard_health :
      AsgardLeg N
      → Option Number
      → Option String
      → ℕ
      → RiskEngine N
      → RiskEngine N × Result (CheckResult N)
  unfolding checked
  check_asgard_health p current user now e =
      elim (value_or current (attribute "health_factor" p.health_factor)) [
        | raises err ↦ (e, raises err)
        | ok hf ↦
            let key = proximity_key user (str_append "asgard_" p.position_pda) in
            let (e', r) = checked (health_level e hf) hf e.min_health_factor hf key now e in
            (e', ok r)
      ]

  -- `position.position_id` is read after the level and before the tracking.
  unfoldable pub check_hyperliquid_margin :
      HyperliquidLeg N
      → Option Number
      → Option String
      → ℕ
      → RiskEngine N
      → RiskEngine N × Result (CheckResult N)
  unfolding checked
  check_hyperliquid_margin p current user now e = elim (value_or current (ok p.margin_fraction)) [
    | raises err ↦ (e, raises err)
    | ok mf ↦ elim p.position_id [
      | none ↦ (e, raises (attribute_error "position_id"))
      | some id ↦
          let key = proximity_key user (str_append "hyperliquid_" id) in
          let threshold = e.margin_fraction_threshold in
          let (e', r) = checked (margin_level e mf) mf threshold (sub mf threshold) key now e in
          (e', ok r)
    ]
  ]

  unfoldable pub check_funding_flip : Number → Number → FundingFlipCheck N
  check_funding_flip current predicted =
      let paid = lt current (zero_number N) in
      let predicted_paid = lt predicted (zero_number N) in
      record {
        flipped = paid && not predicted_paid;
        current_funding_annual = current;
        predicted_funding_annual = predicted;
        was_shorts_paid = paid;
        now_longs_paid = not predicted_paid;
      }

  -- Both costs decide where both are given, and the level where not.
  abbrev pub rebalances : RiskLevel → Option Number → Option Number → Bool
  rebalances level (some d) (some r) = lt r d
  rebalances level _ _ = is_critical level

  unfoldable pub check_delta_drift : Number → Option Number → Option Number → DeltaDriftResult N
  check_delta_drift ratio drift rebalance =
      let size = abs ratio in
      let level =
        if le N (literal 2 2) size
        then critical
        else if le N (literal 5 3) size
        then warning
        else normal in
      record {
        drift_ratio = ratio;
        threshold = literal 5 3;
        level = level;
        drift_cost = drift;
        rebalance_cost = rebalance;
        should_rebalance = rebalances level drift rebalance;
      }
