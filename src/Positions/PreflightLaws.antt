-- ===== src/Positions/PreflightLaws.antt =====
-- When the preflight checks pass, and what they write.
use asgard_hl_basisstrategy.Base.{
  ℕ, ◌≡◌, Bool, true, false, ◌&&◌, ◌||◌, Option, none, some, List, [], ◌∷◌, not, Numbers, Result,
  if◌then◌else◌, ok, raises, arith,
}
use asgard_hl_basisstrategy.Positions.Preflight.{Candidate, Answers, needed, run_preflight_checks}

module _ (N : Numbers) where
  open N use {Number, literal, lt}

  -- A balance that was read, and is below a bound.
  abbrev pub short_of : Result Number → Number → Bool
  short_of (raises e) bound = false
  short_of (ok balance) bound = lt balance bound

  abbrev pub was_read {ℓ} : {A : Type ℓ} → Result A → Bool
  was_read (raises e) = false
  was_read (ok a) = true

  -- The wallets are refused only for a balance that was read: the SOL balance, then the USDC balance,
  -- then the deposit on Hyperliquid, each asked for only if those before it were read.
  abbrev pub refuses_wallet : Candidate N → Answers N → Bool
  refuses_wallet c a =
      short_of a.sol_balance (literal 1 1)
      || (was_read a.sol_balance
          && (short_of a.usdc_balance (needed N c)
              || (was_read a.usdc_balance && short_of a.deposited_balance (needed N c))))

  -- A price check that succeeds and finds the prices within the threshold.
  abbrev pub agrees : Result (Bool × Number) → Bool
  agrees (raises e) = false
  agrees (ok (within, deviation)) = within

  -- The funding is negative now, and predicted so if there is a prediction.
  abbrev pub pays_shorts : Candidate N → Bool
  pays_shorts c =
      c.current_is_negative
      && elim c.predicted_is_negative [ none ↦ true | some negative ↦ negative ]

  -- The market data's client was made, and a protocol with capacity was found or the search raised.
  abbrev pub has_capacity : Answers N → Bool
  has_capacity a = was_read a.market_data && elim a.best_protocol [
    | raises e ↦ true
    | ok found ↦ elim found [ none ↦ false | some p ↦ true ]
  ]

  abbrev pub found_or : ℕ → Result (Option ℕ) → ℕ
  found_or old (raises e) = old
  found_or old (ok none) = old
  found_or old (ok (some p)) = p

  abbrev pub is_empty {ℓ} : {A : Type ℓ} → List A → Bool
  is_empty [] = true
  is_empty (x ∷ xs) = false

  -- The preflight checks pass exactly when no balance that was read falls short, the price check
  -- succeeds within its threshold, the current funding is negative and so is the predicted one if the
  -- opportunity has one, the client of the market data could be made, and a protocol has capacity or
  -- the search for one raised. They list an error exactly when they do not pass, mark the opportunity as passed
  -- exactly when they do or it was marked before, and put the found protocol in place.
  pub run_preflight_checks_lem :
      (c : Candidate N) (a : Answers N)
      → let (c', r) = run_preflight_checks N c a in
        (r.passed
          ≡ (not (refuses_wallet c a) && (agrees a.consensus && (pays_shorts c && has_capacity a))))
        × (is_empty r.errors ≡ r.passed)
        × (c'.preflight_checks_passed ≡ (r.passed || c.preflight_checks_passed))
        × (c'.selected_protocol ≡ (
            if was_read a.market_data
            then found_or c.selected_protocol a.best_protocol
            else c.selected_protocol))
  unfolding run_preflight_checks
  run_preflight_checks_lem c a = ground arith
