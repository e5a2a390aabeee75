-- ===== src/UserRisk/Drawdown.antt =====
-- The drawdown limit.
use asgard_hl_basisstrategy.Base.{
  update_row, ℕ, String, ◌≡◌, refl, Bool, true, ◌&&◌, Option, or_else, Option-cases, none, some,
  List, [], ◌∷◌, not, str-eq_iff, str_eq, all, lookup, lookup-insert, lookup-insert_self,
  if◌then◌else◌, Numbers, zero_number, IsOrdered, le, arith, inl, inr,
}
use asgard_hl_basisstrategy.UserRisk.{
  RiskRow, Database, upsert_risk_row, drawdown_pct, max_drawdown_pct, check_drawdown, update,
  fresh_row,
}
use asgard_hl_basisstrategy.UserRisk.Limits.{record_trade, add_trade}

module _ (N : Numbers) where
  open N use {Number, lt}

  abbrev pub row_of : String → Database N → Option (RiskRow N)
  row_of user db = lookup user db.risk_tracking

  pub row_of-update :
      (user other : String) (f : RiskRow N → RiskRow N) (db : Database N) (r : RiskRow N)
      → row_of user db ≡ some r
      → row_of other (update N user f db)
        ≡ (if str_eq user other then some (f r) else row_of other db)
  unfolding update_row
  row_of-update user other f db r found =
      rw (found, update_row) (lookup-insert user other (f r) db.risk_tracking)

  pub row_of-update_self :
      (user : String) (f : RiskRow N → RiskRow N) (db : Database N) (r : RiskRow N)
      → row_of user db ≡ some r
      → row_of user (update N user f db) ≡ some (f r)
  row_of-update_self user f db r found =
      ground (arith, row_of-update user user f db r found, str-eq_iff user user)

  -- A drawdown of the row's peak reaches the limit.
  abbrev pub breaches : RiskRow N → Number → Bool
  breaches r balance =
      not (lt r.peak_balance_usd balance)
      && le N (max_drawdown_pct N) (drawdown_pct N r.peak_balance_usd balance)

  -- Drawdown checks of one user, each with its balance, day and time, and their answers.
  unfoldable pub check_all : String → List (Number × ℕ × ℕ) → Database N → Database N × List Bool
  check_all user [] db = (db, [])
  check_all user ((balance, today, now) ∷ checks) db =
      let (db', fine) = check_drawdown N user balance today now db in
      let (db'', rest) = check_all user checks db' in (db'', fine ∷ rest)

  check_drawdown-unset :
      (user : String) (balance : Number) (today now : ℕ) (db : Database N) (r : RiskRow N)
      → row_of user db ≡ some r
      → le N r.peak_balance_usd (zero_number N) ≡ true
      → check_drawdown N user balance today now db ≡ (db, true)
  unfolding check_drawdown upsert_risk_row
  check_drawdown-unset user balance today now db r found unset =
      rw (found, check_drawdown) (rw unset (rw (found, upsert_risk_row) refl))

  check_all-unset :
      (user : String) (checks : List (Number × ℕ × ℕ)) (db : Database N) (r : RiskRow N)
      → row_of user db ≡ some r
      → le N r.peak_balance_usd (zero_number N) ≡ true
      → ((check_all user checks db).0 ≡ db) × (all (λ b. b) (check_all user checks db).1 ≡ true)
  unfolding check_all
  check_all-unset user [] db r found unset = (refl, refl)
  check_all-unset user ((balance, today, now) ∷ checks) db r found unset =
      rw (check_drawdown-unset user balance today now db r found unset)
        (check_all-unset user checks db r found unset)

  -- The row after it was made sure to exist.
  pub row_of-upsert :
      (user : String) (peak current : Number) (today : ℕ) (db : Database N)
      → row_of user (upsert_risk_row N user peak current today db)
        ≡ some (or_else (row_of user db) (fresh_row N peak current today))
  unfolding upsert_risk_row
  row_of-upsert user peak current today db = elim (Option-cases (row_of user db)) [
    | inl missing ↦ rw (missing, upsert_risk_row) (lookup-insert_self user _ db.risk_tracking)
    | inr (r, found) ↦ rw (found, upsert_risk_row) found
  ]

  pub row_of-record_trade :
      (user : String) (today : ℕ) (db : Database N)
      → row_of user (record_trade N user today db)
        ≡ some (
            add_trade N today
              (or_else (row_of user db) (fresh_row N (zero_number N) (zero_number N) today)))
  unfolding record_trade
  row_of-record_trade user today db =
      row_of-update_self user (add_trade N today)
        (upsert_risk_row N user (zero_number N) (zero_number N) today db) _
        (row_of-upsert user (zero_number N) (zero_number N) today db)

  -- Once the row of a user was made by `record_trade` and not by a drawdown check, every later
  -- drawdown check, whatever the balances, answers that the user is fine and changes nothing: the
  -- peak that was inserted is 0, and the check never replaces it.
  pub record_trade-check_all :
      IsOrdered N
      → (user : String) (day : ℕ) (checks : List (Number × ℕ × ℕ)) (db : Database N)
      → row_of user db ≡ none
      → let traded = record_trade N user day db in
        ((check_all user checks traded).0 ≡ traded)
        × (all (λ b. b) (check_all user checks traded).1 ≡ true)
  record_trade-check_all order user day checks db missing =
      let zero = zero_number N in
      let row : RiskRow N = add_trade N day (fresh_row N zero zero day) in
      let made : row_of user (record_trade N user day db) ≡ some row =
        rw missing at (row_of-record_trade user day db) in
      check_all-unset user checks (record_trade N user day db) row made
        (ground (arith, order.lt_irrefl zero))
