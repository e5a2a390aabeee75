-- ===== src/Tests/Intents.antt =====
-- The intent scanner on concrete intents.
use asgard_hl_basisstrategy.Base.{
  String, ◌≡◌, refl, true, ◌||◌, none, some, List, [], ◌∷◌, ok, distinct, lookup, insert,
  update_row, if◌then◌else◌,
}
use asgard_hl_basisstrategy.Positions.Types.{consensus_price}
use asgard_hl_basisstrategy.Positions.Open.{
  open_position, open_legs, after_long, open_short_leg, finish_open, store_opened, store_position,
  sizes_of,
}
use asgard_hl_basisstrategy.Positions.Legs.{
  open_hyperliquid_position, after_order, validate_position_entry, asgard_fill_of,
  hyperliquid_fill_of, hyperliquid_position, act_on, token_price,
}
use asgard_hl_basisstrategy.Fills.{
  fill_info, validate_fills, reassess, decide_action, calculate_deviation,
}
use asgard_hl_basisstrategy.Intents.Types.{
  pending, active, executed, cancelled, expired, status_eq, is_scannable, stamp, IntentRow,
  IntentDatabase, World,
}
use asgard_hl_basisstrategy.Intents.Criteria.{
  check_criteria, check_funding, check_min_rate, check_volatility, check_price,
}
use asgard_hl_basisstrategy.Intents.Execute.{
  execute_intent, open_for_intent, build_opportunity, validate_leverage, total_net_apy, rate_annual,
  finish_execution, record_execution, fail_intent, new_data, expire_intent,
}
use asgard_hl_basisstrategy.Intents.Cycle.{
  scan_cycle, process_intents, process_intent, check_and_execute,
}
use asgard_hl_basisstrategy.Intents.Requests.{success, cancel_intent}
use asgard_hl_basisstrategy.Intents.Rows.{row_of, has_status, is_tried, settles}
use asgard_hl_basisstrategy.Intents.States.{scan_cycle_lem, process_intent-cancelled}
use asgard_hl_basisstrategy.Intents.Lives.{Event, scans, cancels, run, run-row, may_become}
use asgard_hl_basisstrategy.Tests.Decimals.{pos, neg_ℤ, whole, decimals}
use asgard_hl_basisstrategy.Tests.Positions.{good_venues}

abbrev intent : IntentRow decimals
intent = record {
  user_id = "u";
  asset = "SOL";
  leverage = whole 3;
  size_usd = whole 1000;
  min_funding_rate = none;
  max_funding_volatility = none;
  max_entry_price = some (whole 200);
  status = pending;
  position_id = none;
  execution_error = none;
  criteria_snapshot = none;
  expires_at = some (stamp 100);
  activated_at = none;
  executed_at = none;
  cancelled_at = none;
}

abbrev old_intent : IntentRow decimals
old_intent = record intent { expires_at = some (stamp 40) }

abbrev database : IntentDatabase decimals
database = record { position_intents = ("i", intent) ∷ ("j", old_intent) ∷ []; positions = [] }

abbrev world : String → World decimals
world id = record {
  clients = ok tt;
  funding_rates = ok (
      (
        "SOL",
        record {
          coin = "SOL";
          funding_rate = neg_ℤ (pos 10);
          timestamp_ms = 7;
          annualized_rate = neg_ℤ (pos 87600);
        },
      )
      ∷ []);
  volatility = λ asset. ok (pos 200000);
  mids = ok (("SOL", whole 100) ∷ []);
  context = ok tt;
  venues = good_venues;
  new_id = "p";
  now = 51;
}

-- One intent is executed, and the other, past its time, expires.
scan_test :
    (has_status decimals
        (λ s. status_eq s executed)
        (row_of decimals "i" (scan_cycle decimals world 50 database))
      ≡ true)
    × (has_status decimals
          (λ s. status_eq s expired)
          (row_of decimals "j" (scan_cycle decimals world 50 database))
        ≡ true)
unfolding scan_cycle process_intents process_intent check_and_execute check_criteria check_funding
    check_min_rate check_volatility check_price execute_intent open_for_intent build_opportunity
    validate_leverage total_net_apy rate_annual finish_execution record_execution fail_intent
    new_data expire_intent open_position sizes_of token_price consensus_price open_legs after_long
    open_short_leg open_hyperliquid_position after_order validate_position_entry asgard_fill_of
    hyperliquid_fill_of hyperliquid_position fill_info validate_fills reassess decide_action
    calculate_deviation act_on finish_open store_opened store_position insert lookup update_row
scan_test = (refl, refl)

all_distinct : distinct database.position_intents ≡ true
unfolding lookup
all_distinct = refl

stored : row_of decimals "i" database ≡ some intent
unfolding lookup
stored = refl

scan_cycle_lem_example :
    has_status decimals
      (λ s.
        if is_scannable intent.status
        then settles decimals (world "i") 50 intent intent.status s
        else status_eq s intent.status)
      (row_of decimals "i" (scan_cycle decimals world 50 database))
    ≡ true
scan_cycle_lem_example = scan_cycle_lem decimals world 50 "i" intent database all_distinct stored

process_intent-cancelled_example :
    let (db', answer) = cancel_intent decimals "u" "i" 52 database in
    (answer ≡ success "i")
    × (has_status decimals (λ s. status_eq s cancelled) (row_of decimals "i" db') ≡ true)
    × (has_status decimals
          (λ s. status_eq s expired || status_eq s active || is_tried s)
          (row_of decimals "i" (process_intent decimals (world "i") 50 "i" intent db'))
        ≡ true)
process_intent-cancelled_example =
    process_intent-cancelled decimals (world "i") 50 52 "u" "i" intent database stored refl refl

abbrev events : List (Event decimals)
events = cancels "u" "i" 30 ∷ scans world 50 ∷ cancels "v" "j" 60 ∷ []

run-row_example :
    has_status decimals
      (may_become intent.status)
      (row_of decimals "i" (run decimals events database))
    ≡ true
run-row_example = run-row decimals events "i" intent database all_distinct stored
