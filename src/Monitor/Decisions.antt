-- ===== src/Monitor/Decisions.antt =====
-- Which exits the position monitor decides on.
use asgard_hl_basisstrategy.Base.{
  String, Bool, true, false, ◌||◌, ◌≡◌, refl, Option, none, some, List, [], ◌∷◌, or_else, Numbers,
  zero_number, le, Result, ok, raises, inl, inr, ◌++◌, map, All, is_some, Bool-cases, str_eq,
  if◌then◌else◌, arith, ℕ, lookup,
}
use asgard_hl_basisstrategy.Positions.Types.{
  ExitReason, health_factor, margin_fraction, funding_flip, stop_loss, target_profit, negative_apy,
}
use asgard_hl_basisstrategy.Risk.Decisions.{first_reason}
use asgard_hl_basisstrategy.Monitor.Types.{
  FundingValue, number, object, Funding, FundingRate, rate_object, funding_value, ExitDecision,
  PositionData, StrategyRow, MonitorDatabase, PositionInfo, Answers,
}
use asgard_hl_basisstrategy.Monitor.Exit.{
  is_health_critical, is_margin_critical, margin_of, is_stopped, is_profitable, carry_apy,
  evaluate_exit, check_funding_flip, check_user_exit_thresholds, check_exit_carry,
}
use asgard_hl_basisstrategy.Monitor.Cycle.{
  decide_exit, check_position, World, check_positions, monitor_user_positions,
}

module _ (N : Numbers) where
  open N use {Number, eq, lt}

  -- The rate that an optional funding holds; a rate of 0 counts as none.
  abbrev pub value_rate : FundingValue N → Option Number
  value_rate (number x) = if eq x (zero_number N) then none else some x
  value_rate (object r) = none

  abbrev pub rate_of : Option (Funding N) → Option Number
  rate_of none = none
  rate_of (some f) = value_rate (funding_value N f)

  abbrev pub is_positive : Option Number → Bool
  is_positive none = false
  is_positive (some x) = lt (zero_number N) x

  -- Whether a rate that is not negative, or a carry below the least, ends the position.
  abbrev pub carries_too_little : PositionData N → Option Number → Option Number → Bool
  carries_too_little d none rate = false
  carries_too_little d (some least) none = false
  carries_too_little d (some least) (some x) = le N (zero_number N) x || lt (carry_apy N x d) least

  -- The system's conditions of an exit and then the user's, in the order of their priority.
  abbrev pub system_conditions :
      Option (PositionInfo N) → Option Number → Option Number → List (Bool × ExitReason)
  system_conditions p health rate =
      (is_health_critical N health, health_factor)
      ∷ (is_margin_critical N (margin_of N p), margin_fraction)
      ∷ (is_positive rate, funding_flip)
      ∷ []

  abbrev pub user_conditions :
      PositionData N → Option (StrategyRow N) → Option Number → List (Bool × ExitReason)
  user_conditions d none rate = []
  user_conditions d (some s) rate =
      (is_stopped N d s.stop_loss_pct, stop_loss)
      ∷ (is_profitable N d s.take_profit_pct, target_profit)
      ∷ (carries_too_little d s.min_exit_carry_apy rate, negative_apy)
      ∷ []

  abbrev pub reason_of : Option (ExitDecision N) → Option ExitReason
  reason_of none = none
  reason_of (some x) = some x.reason

  -- A decision that raises nothing and exits for a reason, or not at all.
  abbrev pub Decides : Option ExitReason → Result (Option (ExitDecision N)) → Type 0
  Decides why (ok x) = reason_of x ≡ why
  Decides why (raises e) = ⊥

  abbrev pub is_number : FundingValue N → Bool
  is_number (number x) = true
  is_number (object r) = false

  abbrev pub is_numeric : Option (Funding N) → Bool
  is_numeric none = true
  is_numeric (some f) = is_number (funding_value N f)

  check_funding_flip-Decides :
      (funding : Option (Funding N))
      → is_numeric funding ≡ true
      → Decides
          (if is_positive (rate_of funding) then some funding_flip else none)
          (check_funding_flip N funding)
  unfolding check_funding_flip
  check_funding_flip-Decides none h = refl
  check_funding_flip-Decides (some f) h = ground arith

  evaluate_exit-Decides :
      (p : Option (PositionInfo N)) (health : Option Number) (funding : Option (Funding N))
      → is_numeric funding ≡ true
      → Decides
          (first_reason (system_conditions p health (rate_of funding)))
          (evaluate_exit N p health funding)
  unfolding evaluate_exit
  evaluate_exit-Decides p health funding h = ground (arith, check_funding_flip-Decides funding h)

  check_exit_carry-Decides :
      (d : PositionData N) (least : Option Number) (funding : Option (Funding N))
      → is_numeric funding ≡ true
      → Decides
          (if carries_too_little d least (rate_of funding) then some negative_apy else none)
          (check_exit_carry N d least funding)
  unfolding check_exit_carry
  check_exit_carry-Decides d none funding h = ground arith
  check_exit_carry-Decides d (some least) none h = ground arith
  check_exit_carry-Decides d (some least) (some f) h = ground arith

  check_user_exit_thresholds-Decides :
      (d : PositionData N) (s : StrategyRow N) (funding : Option (Funding N))
      → is_numeric funding ≡ true
      → Decides
          (first_reason (user_conditions d (some s) (rate_of funding)))
          (check_user_exit_thresholds N d s funding)
  unfolding check_user_exit_thresholds
  check_user_exit_thresholds-Decides d s funding h =
      ground (arith, check_exit_carry-Decides d s.min_exit_carry_apy funding h)

  -- If the funding rate is missing or a number, the monitor exits for the first condition that
  -- holds: critical health, critical margin, a positive rate, and then, for a user with a strategy,
  -- the stop loss, the profit target, and too small a carry. It exits for no other reason.
  pub decide_exit_lem :
      (d : PositionData N) (p : Option (PositionInfo N)) (health : Option Number)
      (funding : Option (Funding N)) (strategy : Option (StrategyRow N))
      → is_numeric funding ≡ true
      → Decides
          (first_reason (
            system_conditions p health (rate_of funding)
            ++ user_conditions d strategy (rate_of funding)))
          (decide_exit N d p health funding strategy)
  unfolding decide_exit
  decide_exit_lem d p health funding none h =
      ground (arith, evaluate_exit-Decides p health funding h)
  decide_exit_lem d p health funding (some s) h = ground (
    arith,
    evaluate_exit-Decides p health funding h,
    check_user_exit_thresholds-Decides d s funding h,
  )

  -- The answer of the oracle: a dict of its objects.
  abbrev pub as_oracle : List (String × FundingRate N) → List (String × Funding N)
  as_oracle rates = map (λ r. (r.0, rate_object r.1)) rates

  lookup-as_oracle :
      (k : String) (rates : List (String × FundingRate N))
      → is_some (lookup k rates) ≡ true
      → (r : FundingRate N) × (lookup k (as_oracle rates) ≡ some (rate_object r))
  unfolding lookup
  lookup-as_oracle k [] h = absurd (ground arith)
  lookup-as_oracle k ((j, r) ∷ rates) h = elim (Bool-cases (str_eq j k)) [
    | inl same ↦ (r, rw (same, lookup) refl)
    | inr other ↦
        let (q, found) = lookup-as_oracle k rates (rw other at h) in (q, rw (other, lookup) found)
  ]

  check_position-object :
      (rates : List (String × Funding N)) (strategy : Option (StrategyRow N)) (a : Answers N)
      (user id : String) (d : PositionData N) (today now : ℕ) (db : MonitorDatabase N)
      (r : FundingRate N)
      → lookup (or_else d.asset "SOL") rates ≡ some (rate_object r)
      → ((check_position N rates strategy a user id d today now db).0 ≡ db)
        × ((check_position N rates strategy a user id d today now db).1 ≡ [])
  unfolding check_position
  check_position-object rates strategy a user id d today now db r h = ground arith

  -- Every position of the list has a rate in what the oracle answered.
  abbrev pub Covered : List (String × FundingRate N) → List (String × PositionData N) → Type 0
  Covered rates ps = All (λ p. is_some (lookup (or_else p.1.asset "SOL") rates) ≡ true) ps

  check_positions-Covered :
      (w : World N) (rates : List (String × FundingRate N)) (strategy : Option (StrategyRow N))
      (user : String) (ps : List (String × PositionData N)) (db : MonitorDatabase N)
      → Covered rates ps
      → check_positions N w (as_oracle rates) strategy user ps db ≡ (db, [])
  unfolding check_positions
  check_positions-Covered w rates strategy user [] db h = refl
  check_positions-Covered w rates strategy user ((id, d) ∷ ps) db h =
      let (r, found) = lookup-as_oracle (or_else d.asset "SOL") rates h.0 in
      let (same, silent) =
        check_position-object (as_oracle rates) strategy (w.answers id) user id d w.today w.now db r
          found in
      ground (arith, same, silent, check_positions-Covered w rates strategy user ps db h.1)

  -- If a user's oracle answers its own objects and has a rate for the asset of each of the user's
  -- positions, monitoring these positions changes nothing and requests nothing, whatever the health
  -- and the margin are.
  pub monitor_user_positions-Covered :
      (w : World N) (rates : List (String × FundingRate N)) (user : String)
      (ps : List (String × PositionData N)) (db : MonitorDatabase N)
      → w.rates user ≡ ok (as_oracle rates)
      → Covered rates ps
      → monitor_user_positions N w user ps db ≡ (db, [])
  unfolding monitor_user_positions
  monitor_user_positions-Covered w rates user ps db h c =
      ground (
        arith,
        h,
        check_positions-Covered w rates (lookup user db.user_strategy_config) user ps db c,
      )
