-- ===== src/Scanner/Cycle.antt =====
-- `_get_enabled_users`, `_evaluate_user` and `_scan_cycle` of AutonomousScanner.
use asgard_hl_basisstrategy.Base.{
  ℕ, String, Bool, true, ◌&&◌, not, Option, none, some, is_some, List, [], ◌∷◌, ◌++◌, filter,
  length, ltb, leb, str_eq, Numbers, lookup, if◌then◌else◌,
}
use asgard_hl_basisstrategy.Positions.Types.{VenueCall}
use asgard_hl_basisstrategy.Pause.Users.{row_paused}
use asgard_hl_basisstrategy.Monitor.Types.{PositionRow}
use asgard_hl_basisstrategy.UserRisk.Limits.{check_daily_trade_limit}
use asgard_hl_basisstrategy.Scanner.Types.{
  system_max_positions, ConfigRow, ScannerDatabase, MarketData, World,
}
use asgard_hl_basisstrategy.Scanner.Entry.{
  cooldown_elapsed, check_entry_criteria, Entry, enter, skip,
}
use asgard_hl_basisstrategy.Scanner.Open.{open_position_for_user}

module _ (N : Numbers) where
  -- `WHERE user_id = $1 AND is_closed = 0`
  abbrev pub is_open_of : String → String × PositionRow N → Bool
  is_open_of user r = str_eq r.1.user_id user && not r.1.is_closed

  abbrev pub open_positions : String → ScannerDatabase N → ℕ
  open_positions user db = length (filter (is_open_of user) db.positions)

  abbrev pub max_positions : ConfigRow N → ℕ
  max_positions c =
      if ltb system_max_positions c.max_concurrent_positions
      then system_max_positions
      else c.max_concurrent_positions

  -- `user_row.get("assets") or ["SOL"]`
  abbrev pub assets_of : ConfigRow N → List String
  assets_of c = elim c.assets [ [] ↦ "SOL" ∷ [] | a ∷ as' ↦ a ∷ as' ]

  -- The loop over the assets, which ends with the first that should be entered.
  unfoldable pub choose_asset : ConfigRow N → MarketData N → List String → Option (String × Entry N)
  choose_asset c m [] = none
  choose_asset c m (asset ∷ assets) =
      let rest = choose_asset c m assets in
      elim (lookup asset m.funding_rates) [
        | none ↦ rest
        | some r ↦ elim (check_entry_criteria N c asset r m.volatilities) [
          | skip why ↦ rest
          | enter entry ↦ some (asset, entry)
        ]
      ]

  -- What is opened for the choice.
  unfoldable pub open_choice :
      Option (String × Entry N)
      → Bool
      → World N
      → String
      → ConfigRow N
      → ScannerDatabase N
      → ScannerDatabase N × List (VenueCall N)
  open_choice none managed w user c db = (db, [])
  open_choice (some (asset, entry)) managed w user c db =
      open_position_for_user N managed w user c asset entry db

  -- The daily limit, which may reset the count of an old day.
  unfoldable pub check_trades : Bool → String → ℕ → ScannerDatabase N → ScannerDatabase N × Bool
  check_trades managed user today db =
      if managed
      then (
        record db { risk = (check_daily_trade_limit N user today db.risk).0 },
        (check_daily_trade_limit N user today db.risk).1,
      )
      else (db, true)

  unfoldable pub evaluate_user :
      Bool
      → World N
      → MarketData N
      → String
      → ConfigRow N
      → ScannerDatabase N
      → ScannerDatabase N × List (VenueCall N)
  unfolding check_trades open_choice choose_asset
  evaluate_user managed w m user c db =
      if not w.locked
      then (db, [])
      else if not (cooldown_elapsed N c w.now)
      then (db, [])
      else if row_paused (lookup user db.users)
      then (db, [])
      else if leb (max_positions c) (open_positions user db)
      then (db, [])
      else let (db', fine) = check_trades managed user w.today db in
        if not fine
        then (db', [])
        else open_choice (choose_asset c m (assets_of c)) managed w user c db'

  -- `WHERE sc.enabled = TRUE AND sc.paused_at IS NULL`
  abbrev pub is_enabled : ScannerDatabase N → String × ConfigRow N → Bool
  is_enabled db r = r.1.enabled && not (is_some (lookup r.0 db.risk.strategy_config))

  -- The loop over the users, with the rows that were read at the start.
  unfoldable pub evaluate_users :
      Bool
      → (String → World N)
      → MarketData N
      → List (String × ConfigRow N)
      → ScannerDatabase N
      → ScannerDatabase N × List (VenueCall N)
  evaluate_users managed w m [] db = (db, [])
  evaluate_users managed w m ((user, c) ∷ rows) db =
      let (db', calls) = evaluate_user managed (w user) m user c db in
      let (db'', calls') = evaluate_users managed w m rows db' in (db'', calls ++ calls')

  unfoldable pub scan_cycle :
      Bool
      → (String → World N)
      → Option (MarketData N)
      → ScannerDatabase N
      → ScannerDatabase N × List (VenueCall N)
  scan_cycle managed w none db = (db, [])
  scan_cycle managed w (some m) db =
      evaluate_users managed w m (filter (is_enabled db) db.user_strategy_config) db
