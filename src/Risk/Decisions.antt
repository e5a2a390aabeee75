-- ===== src/Risk/Decisions.antt =====
-- When the engine decides to exit, and why.
use asgard_hl_basisstrategy.Base.{
  ℕ, ◌≡◌, Bool, Option, none, some, List, [], ◌∷◌, if◌then◌else◌, Numbers, Result, ok, raises,
  arith, is_some, Bool-cases, inl, inr,
}
use asgard_hl_basisstrategy.Positions.Types.{
  ExitReason, chain_outage, health_factor, margin_fraction, lst_depeg, price_deviation,
  negative_apy, funding_flip,
}
use asgard_hl_basisstrategy.Risk.{
  AsgardLeg, HyperliquidLeg, CheckResult, should_close, ExitDecision, Market, RiskEngine,
  check_asgard_health, check_hyperliquid_margin, nonempty,
}
use asgard_hl_basisstrategy.Risk.Exit.{
  evaluate_exit_trigger, after_health, after_margin, decide_market, deviates_much, loses,
  funding_flips,
}

-- The first reason of a list whose condition holds.
abbrev pub first_reason : List (Bool × ExitReason) → Option ExitReason
first_reason [] = none
first_reason ((b, r) ∷ rest) = if b then some r else first_reason rest

-- The same of conditions whose evaluation may raise: the first that raises or holds decides.
abbrev pub first_trigger : List (Result Bool × ExitReason) → Result (Option ExitReason)
first_trigger [] = ok none
first_trigger ((raises e, r) ∷ rest) = raises e
first_trigger ((ok b, r) ∷ rest) = if b then ok (some r) else first_trigger rest

module _ (N : Numbers) where
  open N use {Number}

  abbrev pub closes : Result (CheckResult N) → Result Bool
  closes (raises e) = raises e
  closes (ok c) = ok (should_close N c)

  -- The conditions of an exit, in the order in which they are evaluated: of these the last ones.
  abbrev pub market_triggers :
      AsgardLeg N → Market N → Result (CheckResult N) → List (Result Bool × ExitReason)
  market_triggers p k margin =
      (closes margin, margin_fraction)
      ∷ (ok k.lst_depegged, lst_depeg)
      ∷ (ok (deviates_much N k.price_deviation), price_deviation)
      ∷ (ok (loses N p k.current_apy k.estimated_close_cost), negative_apy)
      ∷ (ok (funding_flips N k.current_funding_annual k.predicted_funding_annual), funding_flip)
      ∷ []

  abbrev pub triggers :
      AsgardLeg N
      → Market N
      → Result (CheckResult N)
      → Result (CheckResult N)
      → List (Result Bool × ExitReason)
  triggers p k health margin =
      (ok (nonempty k.chain_outage), chain_outage)
      ∷ (closes health, health_factor)
      ∷ market_triggers p k margin

  abbrev pub Decides : Result (Option ExitReason) → Result (ExitDecision N) → Type 0
  Decides first (raises e) = first ≡ raises e
  Decides first (ok d) = (first ≡ ok d.reason) × (d.should_exit ≡ is_some d.reason)

  after_margin-Decides :
      (p : AsgardLeg N) (k : Market N) (now : ℕ) (health : CheckResult N)
      (x : RiskEngine N × Result (CheckResult N))
      → Decides (first_trigger (market_triggers p k x.1)) (after_margin N p k now health x).1
  unfolding after_margin decide_market
  after_margin-Decides p k now health (e, raises err) = ground arith
  after_margin-Decides p k now health (e, ok m) = ground arith

  after_health-Decides :
      (p : AsgardLeg N) (h : HyperliquidLeg N) (k : Market N) (now : ℕ)
      (x : RiskEngine N × Result (CheckResult N))
      → Decides
          (first_trigger (
            (closes x.1, health_factor)
            ∷ market_triggers p k
                (check_hyperliquid_margin N h k.current_margin_fraction none now x.0).1))
          (after_health N p h k now x).1
  unfolding after_health
  after_health-Decides p h k now (e, raises err) = ground arith
  after_health-Decides p h k now (e, ok health) = elim (Bool-cases (should_close N health)) [
    | inl closes ↦ rw (closes, after_health) (ground arith)
    | inr safe ↦
        rw (safe, after_health)
          (after_margin-Decides p k now health
            (check_hyperliquid_margin N h k.current_margin_fraction none now e))
  ]

  -- The evaluation is decided by the first of seven conditions that holds, or whose check raises:
  -- chain outage, health factor, margin fraction, checked on the engine that the health check leaves,
  -- LST depeg, price deviation, negative APY, funding flip. It raises with the check, or gives the
  -- reason of the condition, if any, and exits exactly when there is one.
  pub evaluate_exit_trigger_lem :
      (p : AsgardLeg N) (h : HyperliquidLeg N) (k : Market N) (now : ℕ) (e : RiskEngine N)
      → let (e', health) = check_asgard_health N p k.current_health_factor none now e in
        Decides
          (first_trigger (
            triggers p k health
              (check_hyperliquid_margin N h k.current_margin_fraction none now e').1))
          (evaluate_exit_trigger N p h k now e).1
  unfolding evaluate_exit_trigger
  evaluate_exit_trigger_lem p h k now e = elim (Bool-cases (nonempty k.chain_outage)) [
    | inl down ↦ rw (down, evaluate_exit_trigger) (ground arith)
    | inr up ↦
        rw (up, evaluate_exit_trigger)
          (after_health-Decides p h k now
            (check_asgard_health N p k.current_health_factor none now e))
  ]
