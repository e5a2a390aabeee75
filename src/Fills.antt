-- ===== src/Fills.antt =====
-- bot/core/fill_validator.py: class FillValidator. A text that only quotes numbers is kept up to
-- them, and an opportunity enters by its expected APY.
pub mod Actions
use asgard_hl_basisstrategy.Base.{
  String, Bool, true, false, ◌&&◌, Option, none, some, List, [], ◌∷◌, not, if◌then◌else◌, Numbers,
  zero_number, max_of,
}

-- The values of `action`.
pub data Action : Type 0 where
  proceed soft_stop hard_stop : Action

module _ (N : Numbers) where
  open N use {Number, literal, add, sub, mul, div, abs, lt, eq}

  pub record FillInfo : Type 0 where
    pub venue : String
    pub side : String
    pub size_usd : Number
    pub filled_price : Number
    pub expected_price : Number
    pub slippage_bps : Option Number
    pub fees_usd : Option Number

  -- `__post_init__`
  unfoldable pub fill_info : String → String → Number → Number → Number → FillInfo
  fill_info venue side size filled expected = record {
    venue = venue;
    side = side;
    size_usd = size;
    filled_price = filled;
    expected_price = expected;
    slippage_bps =
        if lt (zero_number N) expected
        then some (mul (div (abs (sub filled expected)) expected) (literal 10000 0))
        else none;
    fees_usd = none;
  }

  -- `ArbitrageOpportunity`, as far as this file reads it: `opportunity.total_expected_apy`.
  pub record ValidationResult : Type 0 where
    pub is_valid : Bool
    pub action : Action
    pub asgard_fill : Option FillInfo
    pub hyperliquid_fill : Option FillInfo
    pub asgard_deviation : Number
    pub hyperliquid_deviation : Number
    pub max_deviation : Number
    pub apy_at_fills : Number
    pub soft_stop_triggered : Bool
    pub soft_stop_reason : Option String
    pub should_unwind : Bool
    pub notes : List String

  unfoldable pub calculate_deviation : Number → Number → Number
  calculate_deviation actual expected =
      if eq expected (zero_number N)
      then zero_number N
      else div (abs (sub actual expected)) expected

  unfoldable pub calculate_price_impact : Number → Number → Bool → Number
  calculate_price_impact filled expected is_long =
      let price_diff = sub filled expected in
      if eq expected (zero_number N)
      then zero_number N
      else if is_long
      then (if lt (zero_number N) price_diff then div price_diff expected else zero_number N)
      else (if lt price_diff (zero_number N) then div (abs price_diff) expected else zero_number N)

  unfoldable pub recalculate_apy_at_fills : FillInfo → FillInfo → Number → Number
  recalculate_apy_at_fills asgard_fill hyperliquid_fill original_apy =
      let asgard_impact =
        calculate_price_impact asgard_fill.filled_price asgard_fill.expected_price true in
      let hyperliquid_impact =
        calculate_price_impact hyperliquid_fill.filled_price hyperliquid_fill.expected_price
          false in
      sub original_apy (add asgard_impact hyperliquid_impact)

  unfoldable pub get_soft_stop_reason : Number → Number → Number → String
  get_soft_stop_reason limit asgard_dev hyperliquid_dev =
      if lt limit asgard_dev && lt limit hyperliquid_dev
      then "Both fills exceeded deviation threshold"
      else if lt limit asgard_dev
      then "Asgard fill exceeded deviation threshold"
      else "Hyperliquid fill exceeded deviation threshold"

  -- Steps 2 and 3 of `validate_fills`: whether to unwind, and the APY that the decision is about.
  unfoldable pub reassess : Bool → FillInfo → FillInfo → Number → Number × Bool
  reassess triggered asgard_fill hyperliquid_fill apy =
      let adjusted = recalculate_apy_at_fills asgard_fill hyperliquid_fill apy in
      if triggered then (adjusted, lt adjusted (zero_number N)) else (apy, false)

  -- Step 4: the action and whether the fills are valid.
  unfoldable pub decide_action : Bool → Bool → Action × Bool
  decide_action triggered unwind =
      if not triggered
      then (proceed, true)
      else if unwind
      then (hard_stop, false)
      else (soft_stop, true)

  -- `validate_fills` of a validator with a limit; `apy` is `opportunity.total_expected_apy`.
  unfoldable pub validate_fills : Number → FillInfo → FillInfo → Number → ValidationResult
  unfolding reassess decide_action
  validate_fills limit asgard_fill hyperliquid_fill apy =
      let asgard_dev = calculate_deviation asgard_fill.filled_price asgard_fill.expected_price in
      let hyperliquid_dev =
        calculate_deviation hyperliquid_fill.filled_price hyperliquid_fill.expected_price in
      let max_dev = max_of N asgard_dev hyperliquid_dev in
      let triggered = lt limit max_dev in
      let (apy_at_fills, unwind) = reassess triggered asgard_fill hyperliquid_fill apy in
      let (action, valid) = decide_action triggered unwind in
      record {
        is_valid = valid;
        action = action;
        asgard_fill = some asgard_fill;
        hyperliquid_fill = some hyperliquid_fill;
        asgard_deviation = asgard_dev;
        hyperliquid_deviation = hyperliquid_dev;
        max_deviation = max_dev;
        apy_at_fills = apy_at_fills;
        soft_stop_triggered = triggered;
        soft_stop_reason =
            if triggered
            then some (get_soft_stop_reason limit asgard_dev hyperliquid_dev)
            else none;
        should_unwind = unwind;
        notes = [];
      }

  -- `validate_quick`: the notes quote the deviation.
  unfoldable pub validate_quick : Number → Number → Number → Number → Number → ValidationResult
  validate_quick limit asgard_price hyperliquid_price asgard_expected hyperliquid_expected =
      let asgard_dev = calculate_deviation asgard_price asgard_expected in
      let hyperliquid_dev = calculate_deviation hyperliquid_price hyperliquid_expected in
      let max_dev = max_of N asgard_dev hyperliquid_dev in
      let soft = lt limit max_dev in
      record {
        is_valid = true;
        action = if soft then soft_stop else proceed;
        asgard_fill = none;
        hyperliquid_fill = none;
        asgard_deviation = asgard_dev;
        hyperliquid_deviation = hyperliquid_dev;
        max_deviation = max_dev;
        apy_at_fills = zero_number N;
        soft_stop_triggered = soft;
        soft_stop_reason = if soft then some "Fill deviation > threshold" else none;
        should_unwind = false;
        notes = "Quick validation" ∷ [];
      }
