-- ===== src/Tests/Outage.antt =====
-- The outage detector on concrete checks.
use asgard_hl_basisstrategy.Base.{
  ℕ, ◌*◌, ◌≡◌, refl, true, false, List, [], ◌∷◌, length, ok, raises, exception, arith,
}
use asgard_hl_basisstrategy.Outage.{
  OutageDetector, Chain, solana, arbitrum, init, register_callback, check_chain_health, in_window,
  is_outage, status_of_count, record_failure, record_success,
}
use asgard_hl_basisstrategy.Outage.Histories.{
  Check, InOrder, run, step, latest, failures, called_for, run_lem,
}

-- A failed check of Solana at a second.
abbrev fails_at : ℕ → Check
fails_at t = record {
  chain = solana;
  answer = raises (exception "timeout");
  latency = 0;
  time = t * 1000000;
}

abbrev works_at : Chain → ℕ → Check
works_at c t = record { chain = c; answer = ok true; latency = 90; time = t * 1000000 }

abbrev checks : List Check
checks =
    fails_at 10
    ∷ works_at solana 12
    ∷ fails_at 15
    ∷ works_at arbitrum 16
    ∷ fails_at 20
    ∷ fails_at 29
    ∷ []

outage_test : is_outage solana (run checks (init 0)) ≡ true
unfolding run step init check_chain_health record_failure record_success in_window status_of_count
    is_outage
outage_test = refl

-- The first failure is 15 seconds old at the last.
window_test : is_outage solana (run (fails_at 10 ∷ fails_at 20 ∷ fails_at 25 ∷ []) (init 0)) ≡ false
unfolding run step init check_chain_health record_failure record_success in_window status_of_count
    is_outage
window_test = refl

in_order : InOrder 0 checks
in_order = ground arith

run_lem_example :
    let health = (run checks (init 0)).health_status solana in
    let n = length (in_window (latest solana 0 checks) (failures solana [] checks)) in
    (health.status ≡ called_for n) × (health.consecutive_failures ≡ n)
run_lem_example = run_lem solana checks 0 in_order

abbrev watched : OutageDetector
watched = register_callback 7 (run checks (init 0))
