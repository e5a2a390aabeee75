-- ===== src/Gas/Sends.antt =====
-- To whom the gas funder sends ETH, and what its summary counts.
use asgard_hl_basisstrategy.Base.{
  ◌+◌, ◌≤◌, String, Bool, true, false, ◌&&◌, ◌||◌, not, ◌≡◌, refl, Option, List, [], ◌∷◌, any, all,
  leb, length, str_eq, str-eq_iff, Numbers, Result, ok, raises, arith,
}
use asgard_hl_basisstrategy.Gas.{
  GasFunder, ChainAnswers, Counts, Outcome, funds, sufficient, fails, stops, send, fund, check_user,
  count, fund_users, zero_counts, check_and_fund_users,
}

module _ (N : Numbers) where
  open N use {Number, add, lt, literal}

  abbrev pub below : Result Number → Number → Bool
  below (raises e) x = false
  below (ok b) x = lt b x

  abbrev pub reaches : Result Number → Number → Bool
  reaches (raises e) x = false
  reaches (ok b) x = not (lt b x)

  -- A user whose balance was read below the minimum, while the funder's was read to hold a top-up
  -- and a reserve of 0.001.
  abbrev pub needs : GasFunder N → ChainAnswers N → Bool
  needs g c = below c.balance g.min_balance && reaches c.funder_balance (add g.top_up (literal 1 3))

  abbrev pub deserves : GasFunder N → (String → ChainAnswers N) → String → String × String → Bool
  deserves g chain address r = str_eq r.1 address && needs g (chain r.0)

  check_user-needs :
      (g : GasFunder N) (c : ChainAnswers N) → check_user N g c ≡ funds → needs g c ≡ true
  unfolding check_user fund send
  check_user-needs g c h = ground (arith, h)

  -- What is sent to a row that needs it is due, by any test that holds of such rows.
  abbrev covers :
      GasFunder N → (String → ChainAnswers N) → (String → Bool) → List (String × String) → Bool
  covers g chain due rows = all (λ r. not (needs g (chain r.0)) || due r.1) rows

  covers_more :
      (g : GasFunder N) (chain : String → ChainAnswers N) (r : String × String)
      (total rows : List (String × String))
      → covers g chain (λ a. any (deserves g chain a) total) rows ≡ true
      → covers g chain (λ a. any (deserves g chain a) (r ∷ total)) rows ≡ true
  covers_more g chain r total [] h = refl
  covers_more g chain r total (q ∷ rows) h = ground (arith, covers_more g chain r total rows)

  covers_self :
      (g : GasFunder N) (chain : String → ChainAnswers N) (rows : List (String × String))
      → covers g chain (λ a. any (deserves g chain a) rows) rows ≡ true
  covers_self g chain [] = refl
  covers_self g chain ((user, address) ∷ rows) = ground (
    arith,
    covers_more g chain (user, address) rows rows (covers_self g chain rows),
    str-eq_iff address address,
  )

  -- The counts of a loop, with a test of what is due.
  abbrev pub IsFair : (String → Bool) → Counts N → Type 0
  IsFair due k =
      (length k.sent ≡ k.funded) × (k.funded + k.errors ≤ k.checked) × (all due k.sent ≡ true)

  count-IsFair :
      (due : String → Bool) (address : String) (o : Outcome N) (k : Counts N)
      → IsFair due k
      → (o ≡ funds → due address ≡ true)
      → IsFair due (count N o address (record k { checked = k.checked + 1 }))
  count-IsFair due address funds k fair h = ground (arith, h refl)
  count-IsFair due address sufficient k fair h = ground arith
  count-IsFair due address fails k fair h = ground arith
  count-IsFair due address stops k fair h = ground arith

  fund_users-IsFair :
      (due : String → Bool) (g : GasFunder N) (chain : String → ChainAnswers N)
      (rows : List (String × String)) (k : Counts N)
      → covers g chain due rows ≡ true
      → IsFair due k
      → IsFair due (fund_users N g chain rows k)
        × ((fund_users N g chain rows k).checked ≤ k.checked + length rows)
  unfolding fund_users
  fund_users-IsFair due g chain [] k c fair = ground arith
  fund_users-IsFair due g chain ((user, address) ∷ rows) k c fair =
      let outcome = check_user N g (chain user) in
      let k' = count N outcome address (record k { checked = k.checked + 1 }) in
      let next =
        count-IsFair due address outcome k fair
          (λ (h : outcome ≡ funds). ground (arith, check_user-needs g (chain user) h, c)) in
      ground (arith, next, c, fund_users-IsFair due g chain rows k' (ground (arith, c)) next)

  -- What a run that is not stopped by an exception reports: each address to which ETH was sent is
  -- that of a user who needs it, the summary counts the transfers, no user is counted both as funded
  -- and as an error, and no more users are counted than there are; and a funder with less than one
  -- top-up sends nothing.
  pub check_and_fund_users_lem :
      (g : GasFunder N) (funder : Number) (chain : String → ChainAnswers N)
      (rows : List (String × String)) (k : Counts N) (low : Option String)
      → check_and_fund_users N g (ok funder) chain rows ≡ ok (k, low)
      → IsFair (λ a. any (deserves g chain a) rows) k
        × (k.checked ≤ length rows)
        × ((not (lt funder g.top_up) || leb (length k.sent) 0) ≡ true)
  unfolding check_and_fund_users
  check_and_fund_users_lem g funder chain rows k low h = ground (
    arith,
    h,
    fund_users-IsFair (λ a. any (deserves g chain a) rows) g chain rows (zero_counts N)
        (covers_self g chain rows) (ground arith),
  )
