-- ===== src/Scanner/Open.antt =====
-- `_open_position_for_user` of AutonomousScanner. An id that the table positions has would violate its
-- primary key.
use Prim.Native.String.{◌++◌ as str_append}
use asgard_hl_basisstrategy.Base.{
  ℕ, String, Bool, true, false, Option, none, some, or_else, List, [], Numbers, max_of, min_of,
  Error, exception, message, Result, ok, raises, lookup, insert, if◌then◌else◌,
}
use asgard_hl_basisstrategy.Positions.Types.{
  ArbitrageOpportunity, CombinedPosition, PositionManagerResult, VenueCall,
}
use asgard_hl_basisstrategy.Positions.Open.{open_position}
use asgard_hl_basisstrategy.UserRisk.Limits.{record_trade, record_failure}
use asgard_hl_basisstrategy.Intents.Execute.{build_opportunity, rate_annual, new_manager, new_data}
use asgard_hl_basisstrategy.Scanner.Types.{
  system_min_position_usd, system_max_position_usd, ConfigRow, ScannerDatabase, World,
}
use asgard_hl_basisstrategy.Scanner.Entry.{Entry}

module _ (N : Numbers) where
  open N use {Number, literal, mul, div, abs, lt}

  -- The share of the balance, within the system's bounds.
  unfoldable pub deployed_capital : Number → ConfigRow N → Number
  deployed_capital balance c =
      min_of N (max_of N (mul balance c.max_position_pct) (system_min_position_usd N))
        (system_max_position_usd N)

  -- What the scanner does about trades and failures, if it has a user risk manager.
  unfoldable pub note_trade : Bool → String → ℕ → ScannerDatabase N → ScannerDatabase N
  note_trade managed user today db =
      if managed then record db { risk = record_trade N user today db.risk } else db

  unfoldable pub note_failure :
      Bool → String → String → ℕ → ℕ → ScannerDatabase N → ScannerDatabase N
  note_failure managed user reason today now db =
      if managed
      then record db { risk = (record_failure N user reason today now db.risk).0 }
      else db

  -- The handler of the method.
  unfoldable pub open_exception :
      Bool → String → Error → World N → ScannerDatabase N → ScannerDatabase N
  unfolding note_failure
  open_exception managed user e w db =
      note_failure managed user (str_append "open_exception: " (message e)) w.today w.now db

  -- A position was opened: its row, and the trade.
  unfoldable pub store_opened_position :
      Bool
      → String
      → String
      → Number
      → Number
      → CombinedPosition N
      → World N
      → ScannerDatabase N
      → ScannerDatabase N
  unfolding note_trade open_exception
  store_opened_position managed user asset leverage capital p w db =
      elim (lookup p.position_id db.positions) [
        | some old ↦ open_exception managed user (exception "duplicate key value") w db
        | none ↦ note_trade managed user w.today (record db {
          positions =
              insert p.position_id
                (record {
                  user_id = user;
                  data_of = new_data N asset leverage capital w.now;
                  is_closed = false;
                })
                db.positions;
        })
      ]

  abbrev failure_reason : Option String → String
  failure_reason error = str_append "open_failed: " (or_else error "None")

  -- By what `open_position` answered.
  unfoldable pub finish_opening :
      Bool
      → Option (CombinedPosition N)
      → Option String
      → Bool
      → String
      → String
      → Number
      → Number
      → World N
      → ScannerDatabase N
      → ScannerDatabase N
  unfolding store_opened_position note_failure failure_reason
  finish_opening true (some p) error managed user asset leverage capital w db =
      store_opened_position managed user asset leverage capital p w db
  finish_opening true none error managed user asset leverage capital w db =
      note_failure managed user (failure_reason error) w.today w.now db
  finish_opening false p error managed user asset leverage capital w db =
      note_failure managed user (failure_reason error) w.today w.now db

  -- `open_position` with the opportunity, when both could be made.
  unfoldable pub open_opportunity :
      World N
      → Result (ArbitrageOpportunity N)
      → List (VenueCall N) × Result (PositionManagerResult N)
  open_opportunity w (raises e) = ([], raises e)
  open_opportunity w (ok o) = elim w.context [
    | raises e ↦ ([], raises e)
    | ok t ↦
        let (m, calls, result) = open_position N w.position_id w.now o w.venues (new_manager N) in
        (calls, result)
  ]

  unfoldable pub opportunity_for :
      World N → String → Entry N → Number → Result (ArbitrageOpportunity N)
  opportunity_for w asset entry capital =
      build_opportunity N w.opportunity_id asset entry.leverage capital
        (mul (abs (rate_annual N entry.funding_rate_8hr)) entry.leverage)
        (div entry.estimated_carry_apy (literal 100 0))

  -- After the size is known.
  unfoldable pub open_with_capital :
      Number
      → Bool
      → World N
      → String
      → String
      → Entry N
      → ScannerDatabase N
      → ScannerDatabase N × List (VenueCall N)
  unfolding open_exception finish_opening
  open_with_capital capital managed w user asset entry db =
      let (calls, result) = open_opportunity w (opportunity_for w asset entry capital) in
      elim result [
        | raises e ↦ (open_exception managed user e w db, calls)
        | ok r ↦ (
          finish_opening r.success r.position r.error managed user asset entry.leverage capital w
              db,
          calls,
        )
      ]

  unfoldable pub open_position_for_user :
      Bool
      → World N
      → String
      → ConfigRow N
      → String
      → Entry N
      → ScannerDatabase N
      → ScannerDatabase N × List (VenueCall N)
  unfolding open_exception
  open_position_for_user managed w user c asset entry db = elim w.balance [
    | raises e ↦ (open_exception managed user e w db, [])
    | ok balance ↦
        let capital = deployed_capital balance c in
        if lt balance capital
        then (db, [])
        else open_with_capital capital managed w user asset entry db
  ]
