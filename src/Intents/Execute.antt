-- ===== src/Intents/Execute.antt =====
-- `_execute_intent`, `_expire_intent` and `_fail_intent` of IntentScanner. The position manager is the
-- one of the component Positions, fresh for each intent.
use Prim.Native.String.{◌++◌ as str_append}
use asgard_hl_basisstrategy.Base.{
  ℕ, String, Bool, true, false, ◌&&◌, not, Option, none, some, or_else, [], ◌∷◌, any, str_eq,
  Numbers, zero_number, le, value_error, message, Result, ok, raises, lookup, insert, update_row,
  if◌then◌else◌,
}
use asgard_hl_basisstrategy.Positions.Types.{
  ArbitrageOpportunity, PositionManager, PositionManagerResult, CombinedPosition,
}
use asgard_hl_basisstrategy.Positions.Open.{open_position}
use asgard_hl_basisstrategy.Monitor.Types.{PositionData, iso}
use asgard_hl_basisstrategy.Intents.Types.{
  executed, expired, failed, Criteria, IntentRow, IntentDatabase, World,
}

-- The values of the enum Asset of shared/models/common.py.
abbrev pub is_asset : String → Bool
is_asset s = any (λ a. str_eq s a) ("SOL" ∷ "jitoSOL" ∷ "jupSOL" ∷ "INF" ∷ [])

module _ (N : Numbers) where
  open N use {Number, literal, add, sub, mul, div, abs}

  abbrev pub update_intent :
      String → (IntentRow N → IntentRow N) → IntentDatabase N → IntentDatabase N
  update_intent id f db = record db { position_intents = update_row id f db.position_intents }

  unfoldable pub expire_intent : String → IntentDatabase N → IntentDatabase N
  expire_intent id db = update_intent id (λ r. record r { status = expired }) db

  unfoldable pub fail_intent : String → String → IntentDatabase N → IntentDatabase N
  fail_intent id error db =
      update_intent id (λ r. record r { status = failed; execution_error = some error }) db

  -- `validate_leverage` of shared/models/opportunity.py.
  unfoldable pub validate_leverage : Number → Bool
  validate_leverage v = le N (literal 11 1) v && le N v (literal 4 0)

  -- The property `rate_annual` of shared/models/funding.py, of an 8-hour rate.
  unfoldable pub rate_annual : Number → Number
  rate_annual rate = mul (mul (div rate (literal 8 0)) (literal 24 0)) (literal 365 0)

  -- `total_net_apy` of a score with the default yield and costs, which are 0.
  unfoldable pub total_net_apy : Number → Number → Number
  total_net_apy funding carry =
      sub (sub (add (add funding carry) (zero_number N)) (zero_number N)) (zero_number N)

  -- `ArbitrageOpportunity(...)`: an unknown asset or a leverage out of range raises.
  unfoldable pub build_opportunity :
      String → String → Number → Number → Number → Number → Result (ArbitrageOpportunity N)
  unfolding validate_leverage total_net_apy
  build_opportunity id asset leverage capital funding carry =
      if not (is_asset asset)
      then raises (value_error (str_append asset " is not a valid Asset"))
      else if not (validate_leverage leverage)
      then raises (value_error "leverage must be between 1.1 and 4")
      else ok (record {
        id = id;
        deployed_capital_usd = capital;
        position_size_usd = mul capital leverage;
        leverage = leverage;
        total_expected_apy = total_net_apy funding carry;
        preflight_checks_passed = true;
      })

  -- A manager of one user, with the fill validator's default limit of 0.5%.
  abbrev pub new_manager : PositionManager N
  new_manager = record { positions = []; contexts = []; fill_limit = literal 5 3 }

  -- The rate in the snapshot, -0.001 if it has none.
  abbrev pub snapshot_rate : Criteria N → Number
  snapshot_rate c = elim (lookup "funding_rate" c.checks) [
    | none ↦ N.neg (literal 1 3)
    | some k ↦ or_else k.current (N.neg (literal 1 3))
  ]

  -- The JSON document of a new position.
  unfoldable pub new_data : String → Number → Number → ℕ → PositionData N
  new_data asset leverage size now = record {
    asset = some asset;
    leverage = some leverage;
    size_usd = some size;
    deployed_capital_usd = none;
    total_pnl = none;
    funding_earned = none;
    asgard_pda = none;
    hyperliquid_size = none;
    hl_size = none;
    hl_unrealized_pnl = none;
    hl_margin_fraction = none;
    hl_liquidation_px = none;
    asgard_health_factor = none;
    current_funding_rate = none;
    created_at = some (iso now);
    closed_at = none;
    exit = none;
  }

  -- The transaction: a position with an id that exists violates the primary key.
  unfoldable pub record_execution :
      String → IntentRow N → Criteria N → String → ℕ → IntentDatabase N → IntentDatabase N
  unfolding fail_intent new_data
  record_execution id row c position now db = elim (lookup position db.positions) [
    | some old ↦ fail_intent id "duplicate key value" db
    | none ↦ record db {
      positions =
          insert position
            (record {
              user_id = row.user_id;
              data_of = new_data row.asset row.leverage row.size_usd now;
              is_closed = false;
            })
            db.positions;
      position_intents =
          update_row id
            (λ r. record r {
              status = executed;
              position_id = some position;
              executed_at = some now;
              criteria_snapshot = some c;
            })
            db.position_intents;
    }
  ]

  -- The end, by what `open_position` answered.
  unfoldable pub finish_execution :
      Bool
      → Option (CombinedPosition N)
      → Option String
      → String
      → IntentRow N
      → Criteria N
      → ℕ
      → IntentDatabase N
      → IntentDatabase N
  unfolding fail_intent record_execution
  finish_execution true (some p) error id row c now db =
      record_execution id row c p.position_id now db
  finish_execution true none error id row c now db =
      fail_intent id (or_else error "Unknown error") db
  finish_execution false p error id row c now db = fail_intent id (or_else error "Unknown error") db

  -- What opening a position for the intent answers.
  unfoldable pub open_for_intent :
      World N → String → IntentRow N → Criteria N → Result (PositionManagerResult N)
  open_for_intent w id row c =
      elim (build_opportunity (str_append "intent-" id) row.asset row.leverage row.size_usd
        (abs (rate_annual (snapshot_rate c))) (zero_number N)) [
          | raises e ↦ raises e
          | ok o ↦ elim w.context [
            | raises e ↦ raises e
            | ok t ↦ (open_position N w.new_id w.now o w.venues new_manager).2
          ]
        ]

  unfoldable pub execute_intent :
      World N → String → IntentRow N → Criteria N → IntentDatabase N → IntentDatabase N
  unfolding fail_intent finish_execution
  execute_intent w id row c db = elim (open_for_intent w id row c) [
    | raises e ↦ fail_intent id (message e) db
    | ok r ↦ finish_execution r.success r.position r.error id row c w.now db
  ]
