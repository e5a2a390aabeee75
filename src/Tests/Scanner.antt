-- ===== src/Tests/Scanner.antt =====
-- The autonomous scanner on concrete users.
use asgard_hl_basisstrategy.Base.{
  ℕ, ◌≤◌, ◌≡◌, refl, true, ◌&&◌, ◌||◌, not, some, [], ◌∷◌, any, ltb, le, ok, lookup, insert,
  update_row, arith,
}
use asgard_hl_basisstrategy.Positions.Types.{consensus_price}
use asgard_hl_basisstrategy.Positions.Open.{
  open_position, open_legs, after_long, open_short_leg, finish_open, store_opened, store_position,
  sizes_of,
}
use asgard_hl_basisstrategy.Positions.Legs.{
  open_hyperliquid_position, after_order, validate_position_entry, asgard_fill_of,
  hyperliquid_fill_of, hyperliquid_position, act_on, token_price,
}
use asgard_hl_basisstrategy.Fills.{
  fill_info, validate_fills, reassess, decide_action, calculate_deviation,
}
use asgard_hl_basisstrategy.Pause.Users.{row_paused}
use asgard_hl_basisstrategy.UserRisk.{upsert_risk_row}
use asgard_hl_basisstrategy.UserRisk.Limits.{check_daily_trade_limit, record_trade}
use asgard_hl_basisstrategy.Intents.Execute.{
  build_opportunity, validate_leverage, total_net_apy, rate_annual, new_data,
}
use asgard_hl_basisstrategy.Scanner.Types.{
  system_min_position_usd, system_max_position_usd, ConfigRow, ScannerDatabase, MarketData, World,
}
use asgard_hl_basisstrategy.Scanner.Entry.{
  cooldown_of, cooldown_elapsed, check_entry_criteria, Entry,
}
use asgard_hl_basisstrategy.Scanner.Open.{
  deployed_capital, note_trade, store_opened_position, finish_opening, open_opportunity,
  opportunity_for, open_with_capital, open_position_for_user,
}
use asgard_hl_basisstrategy.Scanner.Cycle.{
  open_positions, assets_of, choose_asset, open_choice, check_trades, evaluate_user, evaluate_users,
  scan_cycle,
}
use asgard_hl_basisstrategy.Scanner.Limits.{scan_cycles, scan_cycles-open_positions}
use asgard_hl_basisstrategy.Scanner.Chances.{
  is_silent, is_worth, evaluate_user_lem, deployed_capital_bounds,
}
use asgard_hl_basisstrategy.Tests.Decimals.{pos, neg_ℤ, whole, decimals, decimals-IsOrdered}
use asgard_hl_basisstrategy.Tests.Positions.{good_venues}

abbrev config : ConfigRow decimals
config = record {
  enabled = true;
  min_carry_apy = whole 15;
  min_funding_rate_8hr = pos 5000;
  max_funding_volatility = pos 500000;
  max_position_pct = pos 250000;
  max_concurrent_positions = 5;
  max_leverage = whole 3;
  cooldown_minutes = 1;
  last_close_time = some 99;
  cooldown_at_close = some 30;
  assets = "SOL" ∷ [];
}

abbrev database : ScannerDatabase decimals
database = record {
  user_strategy_config = ("u", config) ∷ [];
  users = [];
  positions = [];
  risk = record { risk_tracking = []; strategy_config = [] };
}

abbrev market : MarketData decimals
market = record {
  funding_rates =
      (
        "SOL",
        record {
          coin = "SOL";
          funding_rate = neg_ℤ (pos 1000);
          timestamp_ms = 7;
          annualized_rate = neg_ℤ (whole 8);
        },
      )
      ∷ [];
  volatilities = ("SOL", pos 200000) ∷ [];
}

abbrev world : ℕ → World decimals
world now = record {
  locked = true;
  today = 8;
  now = now;
  balance = ok (whole 40000);
  context = ok tt;
  venues = good_venues;
  opportunity_id = "auto";
  position_id = "p";
}

-- The cooldown of the last close, half an hour, is over at the second time only.
scan_test :
    (open_positions decimals "u"
        (scan_cycle decimals true (λ user. world 1799999999) (some market) database).0
      ≡ 0)
    × (open_positions decimals "u"
          (scan_cycle decimals true (λ user. world 1800000099) (some market) database).0
        ≡ 1)
unfolding scan_cycle evaluate_users evaluate_user check_trades check_daily_trade_limit
    cooldown_elapsed cooldown_of choose_asset check_entry_criteria open_choice
    open_position_for_user deployed_capital open_with_capital open_opportunity opportunity_for
    build_opportunity validate_leverage total_net_apy rate_annual finish_opening
    store_opened_position note_trade new_data record_trade upsert_risk_row open_position sizes_of
    token_price consensus_price open_legs after_long open_short_leg open_hyperliquid_position
    after_order validate_position_entry asgard_fill_of hyperliquid_fill_of hyperliquid_position
    fill_info validate_fills reassess decide_action calculate_deviation act_on finish_open
    store_opened store_position insert lookup update_row
scan_test = (refl, refl)

scan_cycles-open_positions_example :
    open_positions decimals "u"
      (scan_cycles decimals true ((λ user. world 1800000099, some market) ∷ []) database)
    ≤ 3
scan_cycles-open_positions_example =
    scan_cycles-open_positions decimals true "u" ((λ user. world 1800000099, some market) ∷ [])
      database (omega arith)

evaluate_user_lem_example :
    (is_silent decimals
        (evaluate_user decimals true (world 1800000099) market "u" config database).1
      || true
        && cooldown_elapsed decimals config 1800000099
        && not (row_paused (lookup "u" database.users))
        && ltb (open_positions decimals "u" database) 3
        && ltb (open_positions decimals "u" database) 5
        && (check_trades decimals true "u" 8 database).1
        && any (is_worth decimals config market) (assets_of decimals config))
    ≡ true
evaluate_user_lem_example =
    evaluate_user_lem decimals true (world 1800000099) market "u" config database

abbrev entry : Entry decimals
entry = record {
  funding_rate_8hr = neg_ℤ (pos 8000);
  estimated_carry_apy = whole 2628;
  volatility = pos 200000;
  leverage = whole 3;
}

-- A quarter of 8000 is below the least size, and the balance is not.
deployed_capital_bounds_example :
    let c = config in
    let least = system_min_position_usd decimals in
    let most = system_max_position_usd decimals in
    (le decimals least (deployed_capital decimals (whole 8000) c) ≡ true)
    × (le decimals (deployed_capital decimals (whole 8000) c) most ≡ true)
    × ((le decimals (deployed_capital decimals (whole 8000) c) (whole 8000)
          || is_silent decimals
              (open_position_for_user decimals true
                (record (world 9) { balance = ok (whole 8000) })
                "u"
                c
                "SOL"
                entry
                database).1)
        ≡ true)
deployed_capital_bounds_example =
    deployed_capital_bounds decimals decimals-IsOrdered (whole 8000) config true
      (record (world 9) { balance = ok (whole 8000) }) "u" "SOL" entry database refl refl
