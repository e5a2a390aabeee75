-- ===== src/Tests/Monitor.antt =====
-- The position monitor on concrete rows and answers.
use asgard_hl_basisstrategy.Base.{
  String, ◌≡◌, refl, true, false, none, some, List, [], ◌∷◌, ◌++◌, ok, raises, exception, lookup,
  insert, update_row,
}
use asgard_hl_basisstrategy.Positions.Types.{stop_loss}
use asgard_hl_basisstrategy.Risk.Decisions.{first_reason}
use asgard_hl_basisstrategy.Monitor.Types.{
  FundingRate, Funding, plain, text_size, iso, PositionData, StrategyRow, MonitorDatabase,
  PositionInfo, Answers, closes_short, closes_position, ExitDecision, stop_loss_details,
}
use asgard_hl_basisstrategy.Monitor.Exit.{
  evaluate_exit, check_funding_flip, check_user_exit_thresholds, check_exit_carry, carry_apy,
  execute_exit, close_short_leg, close_long_leg, archive, exit_failed,
}
use asgard_hl_basisstrategy.Monitor.Cycle.{
  World, monitor_cycle, monitor_users, monitor_user_positions, check_positions, check_position,
  group_rows, add_to_user, store_updates, decide_exit, act_on_exit,
}
use asgard_hl_basisstrategy.Monitor.Decisions.{
  rate_of, system_conditions, user_conditions, Decides, decide_exit_lem, as_oracle, Covered,
  monitor_user_positions-Covered,
}
use asgard_hl_basisstrategy.Monitor.History.{Advances, monitor_cycles-Advances, closed}
use asgard_hl_basisstrategy.Monitor.Steps.{monitor_cycles}
use asgard_hl_basisstrategy.Monitor.Refusals.{Freezes, monitor_cycles-Freezes}
use asgard_hl_basisstrategy.Intents.Execute.{new_data}
use asgard_hl_basisstrategy.Intents.Handover.{execute_exit-new_data}
use asgard_hl_basisstrategy.Tests.Decimals.{pos, neg_ℤ, whole, decimals}

abbrev pub data_now : PositionData decimals
data_now = record {
  asset = some "SOL";
  leverage = some (whole 3);
  size_usd = some (whole 1000);
  deployed_capital_usd = none;
  total_pnl = some (neg_ℤ (whole 150));
  funding_earned = none;
  asgard_pda = some "pda";
  hyperliquid_size = some (text_size (whole 10));
  hl_size = none;
  hl_unrealized_pnl = none;
  hl_margin_fraction = none;
  hl_liquidation_px = none;
  asgard_health_factor = none;
  current_funding_rate = none;
  created_at = some (iso 5);
  closed_at = none;
  exit = none;
}

abbrev pub strategy : StrategyRow decimals
strategy = record {
  stop_loss_pct = some (whole 10);
  take_profit_pct = none;
  min_exit_carry_apy = some (whole 5);
  cooldown_minutes = 30;
  last_close_time = none;
  cooldown_at_close = none;
}

abbrev info : PositionInfo decimals
info = record { unrealized_pnl = whole 1; margin_fraction = pos 300000; liquidation_px = none }

abbrev answers : Answers decimals
answers = record {
  get_position = ok (some info);
  monitor_health = ok (some (pos 250000));
  close_short = ok (record { success = true; error = none });
  close_position = ok (record { success = false; error = some "slippage" });
  bind_timestamp = λ t. ok 5;
}

abbrev pub database : MonitorDatabase decimals
database = record {
  positions =
      ("p", record { user_id = "u"; data_of = data_now; is_closed = false })
      ∷ ("q", record { user_id = "v"; data_of = data_now; is_closed = true })
      ∷ [];
  position_history = [];
  user_strategy_config = ("u", strategy) ∷ [];
  risk = record { risk_tracking = []; strategy_config = [] };
}

abbrev world : List (String × Funding decimals) → World decimals
world rates = record {
  context = λ user. ok tt;
  rates = λ user. ok rates;
  answers = λ id. answers;
  today = 8;
  now = 99;
}

-- asyncpg takes no text for a TIMESTAMP.
abbrev refusing : Answers decimals
refusing = record answers { bind_timestamp = λ t. raises (exception "expected a datetime") }

abbrev refusing_world : List (String × Funding decimals) → World decimals
refusing_world rates = record (world rates) { answers = λ id. refusing }

abbrev negative_rate : Funding decimals
negative_rate = plain (neg_ℤ (pos 100))

-- The stop loss closes the short, then asks for the long, whose failure does not keep the row open.
cycle_test :
    ((monitor_cycle decimals (world (("SOL", negative_rate) ∷ [])) database).1
      ≡ closes_short "SOL" (whole 10) ∷ closes_position "pda" ∷ [])
    × (closed decimals "p" (monitor_cycle decimals (world (("SOL", negative_rate) ∷ [])) database).0
        ≡ true)
unfolding monitor_cycle monitor_users monitor_user_positions check_positions check_position
    group_rows add_to_user store_updates decide_exit act_on_exit evaluate_exit check_funding_flip
    check_user_exit_thresholds check_exit_carry carry_apy execute_exit close_short_leg
    close_long_leg archive exit_failed lookup insert update_row
cycle_test = (refl, refl)

decide_exit_lem_example :
    Decides decimals
      (first_reason (
        system_conditions decimals
          (some info)
          (some (pos 250000))
          (rate_of decimals (some negative_rate))
        ++ user_conditions decimals data_now
            (some strategy)
            (rate_of decimals (some negative_rate))))
      (decide_exit decimals data_now
        (some info)
        (some (pos 250000))
        (some negative_rate)
        (some strategy))
decide_exit_lem_example =
    decide_exit_lem decimals data_now (some info) (some (pos 250000)) (some negative_rate)
      (some strategy) refl

-- A health far below the threshold, and the oracle's own answer.
abbrev oracle_rates : List (String × FundingRate decimals)
oracle_rates =
    (
      "SOL",
      record {
        coin = "SOL";
        funding_rate = neg_ℤ (pos 10);
        timestamp_ms = 7;
        annualized_rate = neg_ℤ (pos 87600);
      },
    )
    ∷ []

rates_cover : Covered decimals oracle_rates (("p", data_now) ∷ [])
unfolding lookup
rates_cover = (refl, tt)

monitor_user_positions-Covered_example :
    monitor_user_positions decimals
      (world (as_oracle decimals oracle_rates))
      "u"
      (("p", data_now) ∷ [])
      database
    ≡ (database, [])
monitor_user_positions-Covered_example =
    monitor_user_positions-Covered decimals (world (as_oracle decimals oracle_rates)) oracle_rates
      "u" (("p", data_now) ∷ []) database refl rates_cover

abbrev worlds : List (World decimals)
worlds = world (("SOL", negative_rate) ∷ []) ∷ world [] ∷ []

monitor_cycles-Advances_example :
    Advances decimals "p" database (monitor_cycles decimals worlds database)
monitor_cycles-Advances_example = monitor_cycles-Advances decimals "p" worlds database

abbrev pub stopped : ExitDecision decimals
stopped = record { reason = stop_loss; details = stop_loss_details (neg_ℤ (whole 15)) (whole 10) }

execute_exit-new_data_example :
    execute_exit decimals refusing "u" "p"
      (new_data decimals "SOL" (whole 3) (whole 1000) 5)
      stopped
      8
      99
      database
    ≡ (exit_failed decimals "u" (exception "expected a datetime") 8 99 database, [])
execute_exit-new_data_example =
    execute_exit-new_data decimals refusing "u" "p" "SOL" (whole 3) (whole 1000) 5 stopped 8 99
      database (exception "expected a datetime") refl

-- The stop loss is reached in each cycle, and the legs are asked for again.
refused_test :
    (monitor_cycle decimals
      (refusing_world (("SOL", negative_rate) ∷ []))
      (monitor_cycles decimals (refusing_world (("SOL", negative_rate) ∷ []) ∷ []) database)).1
    ≡ closes_short "SOL" (whole 10) ∷ closes_position "pda" ∷ []
unfolding monitor_cycles monitor_cycle monitor_users monitor_user_positions check_positions
    check_position group_rows add_to_user store_updates decide_exit act_on_exit evaluate_exit
    check_funding_flip check_user_exit_thresholds check_exit_carry carry_apy execute_exit
    close_short_leg close_long_leg archive exit_failed lookup insert update_row
refused_test = refl

monitor_cycles-Freezes_example : Freezes decimals "p" database (
    monitor_cycles decimals
      (refusing_world (("SOL", negative_rate) ∷ []) ∷ refusing_world [] ∷ [])
      database)
monitor_cycles-Freezes_example =
    monitor_cycles-Freezes decimals "p"
      (refusing_world (("SOL", negative_rate) ∷ []) ∷ refusing_world [] ∷ []) database
      (λ id t. refl, (λ id t. refl, tt))
