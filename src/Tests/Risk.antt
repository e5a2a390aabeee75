-- ===== src/Tests/Risk.antt =====
-- The risk engine on concrete legs.
use asgard_hl_basisstrategy.Base.{
  lookup, ℕ, String, ◌≡◌, refl, Bool, true, false, ◌&&◌, none, some, List, [], ◌∷◌, le, ok,
}
use asgard_hl_basisstrategy.Risk.{
  normal, warning, critical, AsgardLeg, HyperliquidLeg, CheckResult, Market, RiskEngine,
  check_asgard_health, check_hyperliquid_margin, health_level, margin_level, checked,
  update_proximity_tracking, value_or, proximity_threshold,
}
use asgard_hl_basisstrategy.Risk.Exit.{evaluate_exit_trigger}
use asgard_hl_basisstrategy.Risk.Decisions.{
  first_trigger, triggers, Decides, evaluate_exit_trigger_lem,
}
use asgard_hl_basisstrategy.Risk.Proximity.{
  Sighting, start_of, is_lasting, track_all, checked_proximity,
}
use asgard_hl_basisstrategy.Tests.Decimals.{pos, whole, decimals}

abbrev engine : RiskEngine decimals
engine = record {
  min_health_factor = pos 200000;
  emergency_health_factor = pos 100000;
  critical_health_factor = pos 50000;
  margin_fraction_threshold = pos 100000;
  proximity_start_times = [];
}

abbrev asgard_leg : AsgardLeg decimals
asgard_leg = record {
  position_pda = "pda";
  position_size_usd = whole 15000;
  health_factor = some (pos 300000);
}

abbrev hyperliquid_leg : HyperliquidLeg decimals
hyperliquid_leg = record { margin_fraction = pos 40000; position_id = some "p" }

abbrev quiet : Market decimals
quiet = record {
  current_apy = some (pos 100000);
  estimated_close_cost = none;
  current_health_factor = none;
  current_margin_fraction = none;
  current_funding_annual = none;
  predicted_funding_annual = none;
  price_deviation = none;
  lst_depegged = true;
  chain_outage = none;
}

abbrev health : CheckResult decimals
health = record {
  level = normal;
  value = pos 300000;
  threshold = pos 200000;
  distance = pos 300000;
  in_proximity = false;
  proximity_start_time = none;
}

abbrev margin : CheckResult decimals
margin = record {
  level = critical;
  value = pos 40000;
  threshold = pos 100000;
  distance = decimals.sub (pos 40000) (pos 100000);
  in_proximity = false;
  proximity_start_time = some 9;
}

-- The margin fraction comes before the depeg.
margin_test :
    ((check_asgard_health decimals asgard_leg none none 9 engine).1 ≡ ok health)
    × ((check_hyperliquid_margin decimals hyperliquid_leg none none 9
          (check_asgard_health decimals asgard_leg none none 9 engine).0).1
        ≡ ok margin)
unfolding check_asgard_health check_hyperliquid_margin checked update_proximity_tracking value_or
    health_level margin_level lookup
margin_test = (refl, refl)

evaluate_exit_trigger_lem_example :
    let (e', health') = check_asgard_health decimals asgard_leg none none 9 engine in
    Decides decimals
      (first_trigger (
        triggers decimals asgard_leg quiet health'
          (check_hyperliquid_margin decimals hyperliquid_leg none none 9 e').1))
      (evaluate_exit_trigger decimals asgard_leg hyperliquid_leg quiet 9 engine).1
evaluate_exit_trigger_lem_example =
    evaluate_exit_trigger_lem decimals asgard_leg hyperliquid_leg quiet 9 engine

abbrev seen : String → ℕ → Bool → Sighting
seen k t near = record { key = k; now = t; near = near }

-- The leg is near from its first check; another leg moves away in between.
abbrev history : List Sighting
history = seen "a" 1000000 true ∷ seen "b" 3000000 false ∷ seen "a" 8000000 true ∷ []

not_tracked : start_of decimals "a" engine ≡ none
unfolding lookup
not_tracked = refl

lasting_test : is_lasting decimals "a" 21000000 history ≡ true
lasting_test = refl

checked_proximity_example :
    (checked decimals warning
      (pos 210000)
      (pos 200000)
      (pos 210000)
      "a"
      21000000
      (track_all decimals history engine)).1.in_proximity
    ≡ (le decimals (pos 210000) (proximity_threshold decimals (pos 200000))
        && is_lasting decimals "a" 21000000 history)
checked_proximity_example =
    checked_proximity decimals warning (pos 210000) (pos 200000) (pos 210000) "a" 21000000 history
      engine not_tracked refl
