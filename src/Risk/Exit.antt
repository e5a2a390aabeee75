-- ===== src/Risk/Exit.antt =====
-- `evaluate_exit_trigger` and `get_risk_summary`, stage by stage.
use asgard_hl_basisstrategy.Base.{
  ℕ, Bool, true, false, ◌&&◌, Option, none, some, not, leb, or_else, if◌then◌else◌, Numbers,
  zero_number, Result, ok, raises,
}
use asgard_hl_basisstrategy.Positions.Types.{
  ExitReason, chain_outage, health_factor, margin_fraction, lst_depeg, price_deviation,
  negative_apy, funding_flip,
}
use asgard_hl_basisstrategy.Risk.{
  RiskLevel, warning, critical, level_order, AsgardLeg, HyperliquidLeg, CheckResult, should_close,
  ExitDecision, Market, RiskEngine, check_asgard_health, check_hyperliquid_margin,
  check_funding_flip, nonempty,
}

module _ (N : Numbers) where
  open N use {Number, literal, add, sub, mul, div, abs, lt, eq}

  abbrev pub exit_because : ExitReason → RiskLevel → ℕ → ExitDecision N
  exit_because reason level now = record {
    should_exit = true;
    reason = some reason;
    level = level;
    timestamp = now;
    estimated_close_cost = none;
    expected_loss_if_held = none;
  }

  -- The worse of the two levels, the first if they are equal.
  unfoldable pub worst_level : RiskLevel → RiskLevel → RiskLevel
  worst_level a b = if leb (level_order b) (level_order a) then a else b

  -- The loss of five minutes at the current APY.
  unfoldable pub five_min_loss : Number → Number → Number
  five_min_loss size apy = div (mul (mul size (abs apy)) (literal 5 0)) (literal 525600 0)

  -- The tests of steps 5, 6 and 7.
  unfoldable pub deviates_much : Option Number → Bool
  deviates_much none = false
  deviates_much (some d) = not (eq d (zero_number N)) && lt (literal 2 2) d

  unfoldable pub loses : AsgardLeg N → Option Number → Option Number → Bool
  loses p none cost = false
  loses p (some apy) cost =
      lt apy (zero_number N)
      && lt (or_else cost (zero_number N)) (five_min_loss p.position_size_usd apy)

  unfoldable pub funding_flips : Option Number → Option Number → Bool
  funding_flips (some current) (some predicted) = (check_funding_flip N current predicted).flipped
  funding_flips _ _ = false

  -- Steps 4 to 7, and the decision to stay.
  unfoldable pub decide_market :
      AsgardLeg N → Market N → ℕ → CheckResult N → CheckResult N → ExitDecision N
  decide_market p k now health margin =
      if k.lst_depegged
      then exit_because lst_depeg critical now
      else if deviates_much k.price_deviation
      then exit_because price_deviation critical now
      else if loses p k.current_apy k.estimated_close_cost
      then record (exit_because negative_apy warning now) {
        estimated_close_cost = some (or_else k.estimated_close_cost (zero_number N));
        expected_loss_if_held =
            some (five_min_loss p.position_size_usd (or_else k.current_apy (zero_number N)));
      }
      else if funding_flips k.current_funding_annual k.predicted_funding_annual
      then exit_because funding_flip warning now
      else record {
        should_exit = false;
        reason = none;
        level = worst_level health.level margin.level;
        timestamp = now;
        estimated_close_cost = none;
        expected_loss_if_held = none;
      }

  -- From what the margin check gave.
  unfoldable pub after_margin :
      AsgardLeg N
      → Market N
      → ℕ
      → CheckResult N
      → RiskEngine N × Result (CheckResult N)
      → RiskEngine N × Result (ExitDecision N)
  after_margin p k now health (e, raises err) = (e, raises err)
  after_margin p k now health (e, ok margin) = (
    e,
    ok (
        if should_close N margin
        then exit_because margin_fraction margin.level now
        else decide_market p k now health margin),
  )

  -- From what the health check gave.
  unfoldable pub after_health :
      AsgardLeg N
      → HyperliquidLeg N
      → Market N
      → ℕ
      → RiskEngine N × Result (CheckResult N)
      → RiskEngine N × Result (ExitDecision N)
  unfolding after_margin
  after_health p h k now (e, raises err) = (e, raises err)
  after_health p h k now (e, ok health) =
      if should_close N health
      then (e, ok (exit_because health_factor health.level now))
      else after_margin p k now health
          (check_hyperliquid_margin N h k.current_margin_fraction none now e)

  unfoldable pub evaluate_exit_trigger :
      AsgardLeg N
      → HyperliquidLeg N
      → Market N
      → ℕ
      → RiskEngine N
      → RiskEngine N × Result (ExitDecision N)
  unfolding after_health
  evaluate_exit_trigger p h k now e =
      if nonempty k.chain_outage
      then (e, ok (exit_because chain_outage critical now))
      else after_health p h k now (check_asgard_health N p k.current_health_factor none now e)

  -- `overall_risk` of `get_risk_summary`, and the checks that it makes.
  unfoldable pub get_risk_summary :
      AsgardLeg N → HyperliquidLeg N → ℕ → RiskEngine N → RiskEngine N × Result RiskLevel
  get_risk_summary p h now e =
      let (e', health) = check_asgard_health N p none none now e in
      elim health [
        | raises err ↦ (e', raises err)
        | ok a ↦
            let (e'', margin) = check_hyperliquid_margin N h none none now e' in
            elim margin [
              | raises err ↦ (e'', raises err)
              | ok b ↦ (e'', ok (worst_level a.level b.level))
            ]
      ]
