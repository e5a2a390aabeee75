-- ===== src/Risk/Levels.antt =====
-- The levels that the checks report, and legs that lack an attribute.
use asgard_hl_basisstrategy.Base.{
  ℕ, ◌≤◌, ◌≡◌, refl, true, Option, none, some, Numbers, le, IsOrdered, Result, ok, raises, arith,
  Bool-cases, inl, inr, ◌⊎◌,
}
use asgard_hl_basisstrategy.Positions.Types.{chain_outage, health_factor}
use asgard_hl_basisstrategy.Risk.{
  level_order, AsgardLeg, HyperliquidLeg, CheckResult, should_close, ExitDecision, Market,
  RiskEngine, check_asgard_health, check_hyperliquid_margin, nonempty, health_level, margin_level,
  value_or,
}
use asgard_hl_basisstrategy.Risk.Exit.{evaluate_exit_trigger, after_health, after_margin}

module _ (N : Numbers) (order : IsOrdered N) where
  open N use {Number, literal, mul}

  le_trans : (a b c : Number) → le N a b ≡ true → le N b c ≡ true → le N a c ≡ true
  le_trans a b c h k = ground (arith, order.lt_split c b a)

  -- A lower health factor and a lower margin fraction never give a lower risk level.
  pub levels_monotone :
      (e : RiskEngine N) (a b : Number)
      → le N a b ≡ true
      → (level_order (health_level N e b) ≤ level_order (health_level N e a))
        × (level_order (margin_level N e b) ≤ level_order (margin_level N e a))
  unfolding health_level margin_level
  levels_monotone e a b below = ground (
    arith,
    le_trans a b e.critical_health_factor below,
    le_trans a b e.emergency_health_factor below,
    le_trans a b e.min_health_factor below,
    le_trans a b e.margin_fraction_threshold below,
    le_trans a b (mul e.margin_fraction_threshold (literal 5 1)) below,
  )

module _ (N : Numbers) where
  -- The outcomes of an evaluation that never gets to a decision to stay.
  abbrev pub NeverStays : Result (ExitDecision N) → Type 0
  NeverStays (raises err) = Unit {0}
  NeverStays (ok d) =
      (d.should_exit ≡ true) × ((d.reason ≡ some chain_outage) ⊎ (d.reason ≡ some health_factor))

  check_hyperliquid_margin-raises :
      (h : HyperliquidLeg N) (current : Option N.Number) (now : ℕ) (e : RiskEngine N)
      (health : CheckResult N) (p : AsgardLeg N) (k : Market N)
      → h.position_id ≡ none
      → NeverStays
          (after_margin N p k now health (check_hyperliquid_margin N h current none now e)).1
  unfolding check_hyperliquid_margin after_margin value_or
  check_hyperliquid_margin-raises h current now e health p k missing = ground arith

  after_health-NeverStays :
      (p : AsgardLeg N) (h : HyperliquidLeg N) (k : Market N) (now : ℕ)
      (x : RiskEngine N × Result (CheckResult N))
      → h.position_id ≡ none
      → NeverStays (after_health N p h k now x).1
  unfolding after_health
  after_health-NeverStays p h k now (e, raises err) missing = tt
  after_health-NeverStays p h k now (e, ok r) missing = elim (Bool-cases (should_close N r)) [
    | inl closes ↦ rw (closes, after_health) (refl, inr refl)
    | inr safe ↦
        rw (safe, after_health)
          (check_hyperliquid_margin-raises h k.current_margin_fraction now e r p k missing)
  ]

  -- On a Hyperliquid leg without the attribute `position_id`, such as the `HyperliquidPosition` of
  -- shared/models/position.py, the evaluation raises or exits for a chain outage or the health
  -- factor: no other exit is ever decided, nor to stay.
  pub evaluate_exit_trigger-NeverStays :
      (p : AsgardLeg N) (h : HyperliquidLeg N) (k : Market N) (now : ℕ) (e : RiskEngine N)
      → h.position_id ≡ none
      → NeverStays (evaluate_exit_trigger N p h k now e).1
  unfolding evaluate_exit_trigger
  evaluate_exit_trigger-NeverStays p h k now e missing =
      elim (Bool-cases (nonempty k.chain_outage)) [
        | inl down ↦ rw (down, evaluate_exit_trigger) (refl, inl refl)
        | inr up ↦
            rw (up, evaluate_exit_trigger)
              (after_health-NeverStays p h k now
                (check_asgard_health N p k.current_health_factor none now e) missing)
      ]
