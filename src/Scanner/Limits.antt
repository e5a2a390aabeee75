-- ===== src/Scanner/Limits.antt =====
-- How many positions the autonomous scanner opens for a user, and how large they are.
use asgard_hl_basisstrategy.Base.{
  ℕ, ◌+◌, ◌≤◌, String, Bool, true, false, ◌≡◌, Option, none, some, List, [], ◌∷◌, filter, length,
  str_eq, str-eq_iff, Numbers, Error, Result-cases, lookup, insert, Option-cases, inl, inr,
  if◌then◌else◌, arith,
}
use asgard_hl_basisstrategy.Positions.Types.{CombinedPosition}
use asgard_hl_basisstrategy.Monitor.Types.{PositionRow}
use asgard_hl_basisstrategy.Scanner.Types.{ConfigRow, ScannerDatabase, MarketData, World}
use asgard_hl_basisstrategy.Scanner.Entry.{Entry}
use asgard_hl_basisstrategy.Scanner.Open.{
  deployed_capital, note_trade, note_failure, open_exception, store_opened_position, finish_opening,
  open_opportunity, opportunity_for, open_with_capital, open_position_for_user,
}
use asgard_hl_basisstrategy.Intents.Execute.{new_data}
use asgard_hl_basisstrategy.Scanner.Cycle.{
  is_open_of, open_positions, choose_asset, assets_of, open_choice, check_trades, evaluate_user,
  is_enabled, evaluate_users, scan_cycle,
}

module _ (N : Numbers) where
  -- At most one more position of the user is open, and no more of another.
  abbrev Adds : String → String → ScannerDatabase N → ScannerDatabase N → Type 0
  Adds user u db db' =
      open_positions N u db' ≤ open_positions N u db + (if str_eq user u then 1 else 0)

  length-filter-insert :
      (u k : String) (row : PositionRow N) (d : List (String × PositionRow N))
      → lookup k d ≡ none
      → length (filter (is_open_of N u) (insert k row d))
        ≤ length (filter (is_open_of N u) d) + (if str_eq row.user_id u then 1 else 0)
  unfolding lookup insert
  length-filter-insert u k row [] h = ground arith
  length-filter-insert u k row ((j, r) ∷ d) h = ground (arith, length-filter-insert u k row d)

  note_trade-positions :
      (managed : Bool) (user : String) (today : ℕ) (db : ScannerDatabase N)
      → (note_trade N managed user today db).positions ≡ db.positions
  unfolding note_trade
  note_trade-positions managed user today db = ground arith

  note_failure-positions :
      (managed : Bool) (user reason : String) (today now : ℕ) (db : ScannerDatabase N)
      → (note_failure N managed user reason today now db).positions ≡ db.positions
  unfolding note_failure
  note_failure-positions managed user reason today now db = ground arith

  open_exception-positions :
      (managed : Bool) (user : String) (e : Error) (w : World N) (db : ScannerDatabase N)
      → (open_exception N managed user e w db).positions ≡ db.positions
  unfolding open_exception
  open_exception-positions managed user e w db =
      note_failure-positions managed user _ w.today w.now db

  store_opened_position-Adds :
      (managed : Bool) (user u asset : String) (leverage capital : N.Number)
      (p : CombinedPosition N) (w : World N) (db : ScannerDatabase N)
      → Adds user u db (store_opened_position N managed user asset leverage capital p w db)
  unfolding store_opened_position
  store_opened_position-Adds managed user u asset leverage capital p w db =
      elim (Option-cases (lookup p.position_id db.positions)) [
        | inl new ↦
            let row : PositionRow N = record {
              user_id = user;
              data_of = new_data N asset leverage capital w.now;
              is_closed = false;
            } in
            rw (new, store_opened_position)
              (rw
                (note_trade-positions managed user w.today
                  (record db { positions = insert p.position_id row db.positions }))
                (length-filter-insert u p.position_id row db.positions new))
        | inr (old, found) ↦
            rw (found, store_opened_position)
              (rw (open_exception-positions managed user _ w db) (omega arith))
      ]

  finish_opening-Adds :
      (done : Bool) (p : Option (CombinedPosition N)) (error : Option String) (managed : Bool)
      (user u asset : String) (leverage capital : N.Number) (w : World N) (db : ScannerDatabase N)
      → Adds user u db (finish_opening N done p error managed user asset leverage capital w db)
  unfolding finish_opening
  finish_opening-Adds true (some p) error managed user u asset leverage capital w db =
      store_opened_position-Adds managed user u asset leverage capital p w db
  finish_opening-Adds true none error managed user u asset leverage capital w db =
      rw (note_failure-positions managed user _ w.today w.now db) (omega arith)
  finish_opening-Adds false p error managed user u asset leverage capital w db =
      rw (note_failure-positions managed user _ w.today w.now db) (omega arith)

  open_with_capital-Adds :
      (capital : N.Number) (managed : Bool) (w : World N) (user u asset : String) (entry : Entry N)
      (db : ScannerDatabase N)
      → Adds user u db (open_with_capital N capital managed w user asset entry db).0
  unfolding open_with_capital
  open_with_capital-Adds capital managed w user u asset entry db =
      let answer = open_opportunity N w (opportunity_for N w asset entry capital) in
      elim (Result-cases answer.1) [
        | inl (e, raised) ↦
            rw (raised, open_with_capital)
              (rw (open_exception-positions managed user e w db) (omega arith))
        | inr (r, opened) ↦
            rw (opened, open_with_capital)
              (finish_opening-Adds r.success r.position r.error managed user u asset entry.leverage
                capital w db)
      ]

  open_position_for_user-Adds :
      (managed : Bool) (w : World N) (user u : String) (c : ConfigRow N) (asset : String)
      (entry : Entry N) (db : ScannerDatabase N)
      → Adds user u db (open_position_for_user N managed w user c asset entry db).0
  unfolding open_position_for_user
  open_position_for_user-Adds managed w user u c asset entry db = elim (Result-cases w.balance) [
    | inl (e, raised) ↦
        rw (raised, open_position_for_user)
          (rw (open_exception-positions managed user e w db) (omega arith))
    | inr (balance, answered) ↦
        rw (answered, open_position_for_user)
          (ground (
            arith,
            open_with_capital-Adds (deployed_capital N balance c) managed w user u asset entry db,
          ))
  ]

  open_choice-Adds :
      (choice : Option (String × Entry N)) (managed : Bool) (w : World N) (user u : String)
      (c : ConfigRow N) (db : ScannerDatabase N)
      → Adds user u db (open_choice N choice managed w user c db).0
  unfolding open_choice
  open_choice-Adds none managed w user u c db = omega arith
  open_choice-Adds (some (asset, entry)) managed w user u c db =
      open_position_for_user-Adds managed w user u c asset entry db

  check_trades-positions :
      (managed : Bool) (user : String) (today : ℕ) (db : ScannerDatabase N)
      → (check_trades N managed user today db).0.positions ≡ db.positions
  unfolding check_trades
  check_trades-positions managed user today db = ground arith

  evaluate_user-open_positions :
      (managed : Bool) (w : World N) (m : MarketData N) (user u : String) (c : ConfigRow N)
      (db : ScannerDatabase N)
      → open_positions N u db ≤ 3
      → open_positions N u (evaluate_user N managed w m user c db).0 ≤ 3
  unfolding evaluate_user
  evaluate_user-open_positions managed w m user u c db h =
      let seen = (check_trades N managed user w.today db).0 in
      ground (
        arith,
        check_trades-positions managed user w.today db,
        open_choice-Adds (choose_asset N c m (assets_of N c)) managed w user u c seen,
        str-eq_iff user u,
      )

  evaluate_users-open_positions :
      (managed : Bool) (w : String → World N) (m : MarketData N) (u : String)
      (rows : List (String × ConfigRow N)) (db : ScannerDatabase N)
      → open_positions N u db ≤ 3
      → open_positions N u (evaluate_users N managed w m rows db).0 ≤ 3
  unfolding evaluate_users
  evaluate_users-open_positions managed w m u [] db h = h
  evaluate_users-open_positions managed w m u ((user, c) ∷ rows) db h =
      evaluate_users-open_positions managed w m u rows
        (evaluate_user N managed (w user) m user c db).0
        (evaluate_user-open_positions managed (w user) m user u c db h)

  -- What the cycles of a run meet: the users' worlds and the market data.
  unfoldable pub scan_cycles :
      Bool
      → List ((String → World N) × Option (MarketData N))
      → ScannerDatabase N
      → ScannerDatabase N
  scan_cycles managed [] db = db
  scan_cycles managed ((w, m) ∷ rest) db = scan_cycles managed rest (scan_cycle N managed w m db).0

  -- The scanner never raises the number of a user's open positions above the system's limit of
  -- three, over any cycles, users and configurations, however the venues and the oracle answer.
  pub scan_cycles-open_positions :
      (managed : Bool) (u : String) (rounds : List ((String → World N) × Option (MarketData N)))
      (db : ScannerDatabase N)
      → open_positions N u db ≤ 3
      → open_positions N u (scan_cycles managed rounds db) ≤ 3
  unfolding scan_cycles scan_cycle
  scan_cycles-open_positions managed u [] db h = h
  scan_cycles-open_positions managed u ((w, none) ∷ rest) db h =
      scan_cycles-open_positions managed u rest db h
  scan_cycles-open_positions managed u ((w, some m) ∷ rest) db h =
      let rows = filter (is_enabled N db) db.user_strategy_config in
      scan_cycles-open_positions managed u rest (evaluate_users N managed w m rows db).0
        (evaluate_users-open_positions managed w m u rows db h)
