-- ===== src/Scanner/Chances.antt =====
-- When the autonomous scanner opens a position, and with how much.
use asgard_hl_basisstrategy.Base.{
  String, Bool, true, false, ◌&&◌, ◌||◌, not, ◌≡◌, refl, Option, none, some, is_some, or_else, List,
  [], ◌∷◌, any, ltb, Numbers, IsOrdered, zero_number, le, ok, lookup, le-min_of, max_of, arith,
}
use asgard_hl_basisstrategy.Positions.Types.{VenueCall}
use asgard_hl_basisstrategy.Pause.Users.{row_paused}
use asgard_hl_basisstrategy.Monitor.Types.{rate_8hr}
use asgard_hl_basisstrategy.Scanner.Types.{
  ConfigRow, ScannerDatabase, MarketData, World, system_min_position_usd, system_max_position_usd,
}
use asgard_hl_basisstrategy.Scanner.Entry.{
  cooldown_elapsed, estimated_carry, check_entry_criteria, Entry,
}
use asgard_hl_basisstrategy.Scanner.Open.{deployed_capital, open_position_for_user}
use asgard_hl_basisstrategy.Scanner.Cycle.{
  open_positions, assets_of, choose_asset, open_choice, check_trades, evaluate_user,
}

module _ (N : Numbers) where
  open N use {Number, abs, lt, literal}

  -- An asset with a negative rate of at least the least size, with a volatility of at most the
  -- greatest, and with at least the least estimated carry.
  abbrev pub is_worth : ConfigRow N → MarketData N → String → Bool
  is_worth c m asset = elim (lookup asset m.funding_rates) [
    | none ↦ false
    | some r ↦
        not (le N (zero_number N) (rate_8hr N r))
        && le N c.min_funding_rate_8hr (abs (rate_8hr N r))
        && le N (or_else (lookup asset m.volatilities) (literal 1 0)) c.max_funding_volatility
        && le N c.min_carry_apy (estimated_carry N (rate_8hr N r) c.max_leverage)
  ]

  choose_asset-any :
      (c : ConfigRow N) (m : MarketData N) (assets : List String)
      → is_some (choose_asset N c m assets) ≡ any (is_worth c m) assets
  unfolding choose_asset check_entry_criteria
  choose_asset-any c m [] = refl
  choose_asset-any c m (asset ∷ assets) = ground (arith, choose_asset-any c m assets)

  abbrev pub is_silent : List (VenueCall N) → Bool
  is_silent [] = true
  is_silent (call ∷ calls) = false

  open_choice-silent :
      (choice : Option (String × Entry N)) (managed : Bool) (w : World N) (user : String)
      (c : ConfigRow N) (db : ScannerDatabase N)
      → (is_silent (open_choice N choice managed w user c db).1 || is_some choice) ≡ true
  unfolding open_choice
  open_choice-silent none managed w user c db = refl
  open_choice-silent (some (asset, entry)) managed w user c db = ground arith

  -- The scanner makes a request to the venues for a user only if it has the user's lock, the
  -- cooldown is over, the user is not paused, fewer positions are open than both limits allow, the
  -- daily limit permits a trade, and one of the user's assets is worth it.
  pub evaluate_user_lem :
      (managed : Bool) (w : World N) (m : MarketData N) (user : String) (c : ConfigRow N)
      (db : ScannerDatabase N)
      → (is_silent (evaluate_user N managed w m user c db).1
          || w.locked
            && cooldown_elapsed N c w.now
            && not (row_paused (lookup user db.users))
            && ltb (open_positions N user db) 3
            && ltb (open_positions N user db) c.max_concurrent_positions
            && (check_trades N managed user w.today db).1
            && any (is_worth c m) (assets_of N c))
        ≡ true
  unfolding evaluate_user
  evaluate_user_lem managed w m user c db =
      let seen = (check_trades N managed user w.today db).0 in
      ground (
        arith,
        choose_asset-any c m (assets_of N c),
        open_choice-silent (choose_asset N c m (assets_of N c)) managed w user c seen,
      )

  -- With linearly ordered numbers and a least size that is below the greatest, what the scanner
  -- deploys lies within the system's bounds, whatever the balance and the user's share are; and
  -- with a balance below it, the scanner requests nothing.
  pub deployed_capital_bounds :
      (order : IsOrdered N) (balance : Number) (c : ConfigRow N) (managed : Bool) (w : World N)
      (user asset : String) (entry : Entry N) (db : ScannerDatabase N)
      → lt (system_min_position_usd N) (system_max_position_usd N) ≡ true
      → w.balance ≡ ok balance
      → (le N (system_min_position_usd N) (deployed_capital N balance c) ≡ true)
        × (le N (deployed_capital N balance c) (system_max_position_usd N) ≡ true)
        × ((le N (deployed_capital N balance c) balance
              || is_silent (open_position_for_user N managed w user c asset entry db).1)
            ≡ true)
  unfolding deployed_capital open_position_for_user
  deployed_capital_bounds order balance c managed w user asset entry db small answered =
      let share = N.mul balance c.max_position_pct in
      let least = system_min_position_usd N in
      let most = system_max_position_usd N in
      (
        ground (arith, order.lt_irrefl least, order.lt_trans least most least),
        ground (arith, (le-min_of N order (max_of N share least) most).1),
        ground (arith, answered),
      )
