-- ===== src/Sizing.antt =====
-- bot/core/position_sizer.py: class PositionSizer. The sizer's limits are its fields. A division by 0
-- raises, and `calculate_position_size` swallows it; texts are kept up to the amounts they quote.
pub mod Bounds
pub mod Targets
use asgard_hl_basisstrategy.Base.{
  String, Bool, true, false, ◌&&◌, ◌||◌, Option, none, some, not, if◌then◌else◌, Numbers,
  zero_number, le, min_of, number_or, exception, Result, ok, raises,
}

module _ (N : Numbers) where
  open N use {Number, literal, add, sub, mul, div, lt, eq}

  pub record PositionSize : Type 0 where
    pub per_leg_deployment_usd : Number
    pub position_size_usd : Number
    pub borrowed_usd : Number
    pub leverage : Number
    pub deployment_pct_used : Number
    pub was_capped_by_min : Bool
    pub was_capped_by_max : Bool
    pub was_capped_by_balance : Bool

  pub record SizingResult : Type 0 where
    pub success : Bool
    pub size : Option PositionSize
    pub error : Option String
    pub solana_balance_usd : Option Number
    pub hyperliquid_balance_usd : Option Number
    pub limiting_balance_usd : Option Number

  pub record PositionSizer : Type 0 where
    pub min_position_usd : Number
    pub default_deployment_pct : Number
    pub max_deployment_pct : Number
    pub default_leverage : Number
    pub max_leverage : Number

  abbrev one : Number
  one = literal 1 0

  abbrev two : Number
  two = literal 2 0

  abbrev pub refused : String → SizingResult
  refused error = record {
    success = false;
    size = none;
    error = some error;
    solana_balance_usd = none;
    hyperliquid_balance_usd = none;
    limiting_balance_usd = none;
  }

  unfoldable pub clamp_leverage : PositionSizer → Number → Number
  clamp_leverage s leverage =
      if lt s.max_leverage leverage
      then s.max_leverage
      else if lt leverage one
      then one
      else leverage

  -- The constraints that are reported, and the result.
  unfoldable pub sized :
      PositionSizer → Number → Number → Number → Number → Number → Number → Bool → SizingResult
  sized s sol hl pct leverage per_leg size by_min =
      let limiting = min_of N sol hl in
      record {
        success = true;
        size = some (record {
          per_leg_deployment_usd = per_leg;
          position_size_usd = size;
          borrowed_usd = sub size per_leg;
          leverage = leverage;
          deployment_pct_used = pct;
          was_capped_by_min = by_min;
          was_capped_by_max = le N s.max_deployment_pct pct;
          was_capped_by_balance = eq limiting sol || eq limiting hl;
        });
        error = none;
        solana_balance_usd = some sol;
        hyperliquid_balance_usd = some hl;
        limiting_balance_usd = some limiting;
      }

  -- The minimum is scaled up to, if the balance covers it. `min / size` and `size / leverage` raise
  -- for a size or a leverage of 0.
  unfoldable pub scale_to_min :
      PositionSizer → Number → Number → Number → Number → Number → SizingResult
  unfolding sized
  scale_to_min s sol hl pct leverage size =
      let per_leg = div s.min_position_usd leverage in
      if eq size (zero_number N) || eq leverage (zero_number N)
      then refused "Sizing calculation failed"
      else if lt (min_of N sol hl) (mul per_leg two)
      then record (refused "Insufficient balance for minimum position") {
        solana_balance_usd = some sol;
        hyperliquid_balance_usd = some hl;
        limiting_balance_usd = some (min_of N sol hl);
      }
      else sized s sol hl pct leverage per_leg s.min_position_usd true

  unfoldable pub calculate_position_size :
      PositionSizer → Number → Number → Option Number → Option Number → SizingResult
  unfolding scale_to_min
  calculate_position_size s sol hl deployment given =
      let leverage = clamp_leverage s (number_or N given s.default_leverage) in
      let pct = min_of N (number_or N deployment s.default_deployment_pct) s.max_deployment_pct in
      let per_leg = div (mul (min_of N sol hl) pct) two in
      let size = mul per_leg leverage in
      if lt sol (zero_number N) || lt hl (zero_number N)
      then refused "Balances cannot be negative"
      else if lt size s.min_position_usd
      then scale_to_min s sol hl pct leverage size
      else sized s sol hl pct leverage per_leg size false

  -- The tests by which a target falls back to the maximal deployment.
  unfoldable pub exceeds : PositionSizer → Number → Number → Number → Bool
  exceeds s sol hl per_leg =
      lt (mul (min_of N sol hl) s.max_deployment_pct) (mul per_leg two)
      || (lt sol per_leg || lt hl per_leg)

  -- The sizing of a target, from its size per leg; `total_deployment / limiting_balance` may raise.
  unfoldable pub size_target :
      PositionSizer → Number → Number → Number → Number → Result SizingResult
  size_target s sol hl per_leg leverage =
      let limiting = min_of N sol hl in
      let size_at : Number → Result SizingResult =
        λ pct. ok (calculate_position_size s sol hl (some pct) (some leverage)) in
      if exceeds s sol hl per_leg
      then size_at s.max_deployment_pct
      else if eq limiting (zero_number N)
      then raises (exception "division by zero")
      else size_at (min_of N (div (mul per_leg two) limiting) s.max_deployment_pct)

  -- A missing target and a target of 0 give the default sizing.
  unfoldable pub calculate_for_opportunity :
      PositionSizer → Number → Number → Option Number → Option Number → Result SizingResult
  unfolding size_target
  calculate_for_opportunity s sol hl target given =
      let leverage = number_or N given s.default_leverage in
      let wanted = number_or N target (zero_number N) in
      if eq wanted (zero_number N)
      then ok (calculate_position_size s sol hl none (some leverage))
      else if eq leverage (zero_number N)
      then raises (exception "division by zero")
      else size_target s sol hl (div wanted leverage) leverage

  unfoldable pub get_max_position_size : PositionSizer → Number → Number → Option Number → Number
  get_max_position_size s sol hl given =
      mul (div (mul (min_of N sol hl) s.max_deployment_pct) two) (number_or N given s.max_leverage)

  unfoldable pub can_afford_position :
      PositionSizer → Number → Number → Number → Option Number → Result Bool
  can_afford_position s sol hl target given =
      let leverage = number_or N given s.default_leverage in
      let per_leg = div target leverage in
      if eq leverage (zero_number N)
      then raises (exception "division by zero")
      else ok (
          le N per_leg sol
          && (le N per_leg hl
              && le N (mul per_leg two) (mul (min_of N sol hl) s.max_deployment_pct)))
