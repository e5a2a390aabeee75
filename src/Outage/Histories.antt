-- ===== src/Outage/Histories.antt =====
-- Any sequence of health checks of both chains, and the callbacks that one check runs.
use asgard_hl_basisstrategy.Base.{
  ℕ, ◌≤◌, ◌≡◌, refl, List, [], ◌∷◌, ◌++◌, arith, length, Bool, false, ◌&&◌, ◌||◌, not, map, Result,
  ok, raises, leb, if◌then◌else◌,
}
use asgard_hl_basisstrategy.Outage.{
  OutageDetector, Chain, chain_eq, status_eq, healthy, degraded, outage, notified, init,
  record_success, record_failure, in_window, status_of_count, check_chain_health, notify_callbacks,
  ChainStatus,
}
use asgard_hl_basisstrategy.Outage.Windows.{in_window-append, length-in_window-pos}

pub record Check : Type 0 where
  pub chain : Chain
  pub answer : Result Bool
  pub latency : ℕ
  pub time : ℕ

unfoldable pub step : Check → OutageDetector → OutageDetector
step k d = (check_chain_health k.chain k.answer k.latency k.time d).0

unfoldable pub run : List Check → OutageDetector → OutageDetector
run [] d = d
run (k ∷ ks) d = run ks (step k d)

-- Whether the chain's client said that it is healthy.
abbrev pub succeeded : Result Bool → Bool
succeeded (ok b) = b
succeeded (raises e) = false

-- The clock does not go back.
abbrev pub InOrder : ℕ → List Check → Type 0
InOrder now [] = Unit {0}
InOrder now (k ∷ ks) = (now ≤ k.time) × InOrder k.time ks

-- The time of the latest check of a chain, and the times of its failures since its last success.
abbrev pub latest_after : Chain → Check → ℕ → ℕ
latest_after c k last = if chain_eq k.chain c then k.time else last

abbrev pub failures_after : Chain → Check → List ℕ → List ℕ
failures_after c k fs =
    if not (chain_eq k.chain c) then fs else if succeeded k.answer then [] else fs ++ k.time ∷ []

abbrev pub latest : Chain → ℕ → List Check → ℕ
latest c last [] = last
latest c last (k ∷ ks) = latest c (latest_after c k last) ks

abbrev pub failures : Chain → List ℕ → List Check → List ℕ
failures c fs [] = fs
failures c fs (k ∷ ks) = failures c (failures_after c k fs) ks

-- The status that a number of failures in the window calls for.
abbrev pub called_for : ℕ → ChainStatus
called_for n = if leb 3 n then outage else if leb 1 n then degraded else healthy

abbrev pub Tracks : Chain → ℕ → List ℕ → OutageDetector → Type 0
Tracks c last fs d =
    let health = d.health_status c in
    let n = length (in_window last fs) in
    (d.failure_timestamps c ≡ in_window last fs)
    × (health.status ≡ called_for n)
    × (health.consecutive_failures ≡ n)

step-Tracks :
    (c : Chain) (k : Check) (last : ℕ) (fs : List ℕ) (d : OutageDetector)
    → last ≤ k.time
    → Tracks c last fs d
    → Tracks c (latest_after c k last) (failures_after c k fs) (step k d)
unfolding step check_chain_health record_success record_failure status_of_count in_window
step-Tracks c k last fs d later h = ground (arith, in_window-append last k.time k.time fs later)

run-Tracks :
    (c : Chain) (ks : List Check) (now last : ℕ) (fs : List ℕ) (d : OutageDetector)
    → last ≤ now
    → InOrder now ks
    → Tracks c last fs d
    → Tracks c (latest c last ks) (failures c fs ks) (run ks d)
unfolding run
run-Tracks c [] now last fs d h ordered tracked = tracked
run-Tracks c (k ∷ ks) now last fs d h ordered tracked =
    run-Tracks c ks k.time (latest_after c k last) (failures_after c k fs) (step k d) (ground arith)
      ordered.1 (step-Tracks c k last fs d (omega (arith, ordered.0)) tracked)

-- After any health checks of both chains in the order of time, from a new detector, a chain's status
-- is OUTAGE when at least 3 of its failures since its last success are less than 15 seconds older
-- than its latest check, DEGRADED when at least one but fewer are, and HEALTHY when none is; and
-- `consecutive_failures` is their number.
pub run_lem :
    (c : Chain) (ks : List Check) (start : ℕ)
    → InOrder start ks
    → let health = (run ks (init start)).health_status c in
      let n = length (in_window (latest c start ks) (failures c [] ks)) in
      (health.status ≡ called_for n) × (health.consecutive_failures ≡ n)
unfolding init in_window
run_lem c ks start ordered =
    let initial : Tracks c start [] (init start) = (refl, refl, refl) in
    let tracked = run-Tracks c ks start start [] (init start) (omega arith) ordered initial in
    (tracked.1, tracked.2)

-- A check of a chain stores the health that it returns for it and leaves the other chain alone; it
-- reports HEALTHY exactly when the client answered true. Every callback is run with the new status
-- when the status changed, except when a chain recovers from DEGRADED, and otherwise none is.
pub check_chain_health_lem :
    (c other : Chain) (answer : Result Bool) (latency now : ℕ) (d : OutageDetector)
    → let (d', notices, health) = check_chain_health c answer latency now d in
      let old = (d.health_status c).status in
      let new = health.status in
      let silent = status_eq new old || (status_eq old degraded && status_eq new healthy) in
      (d'.health_status other ≡ (if chain_eq c other then health else d.health_status other))
      × (status_eq new healthy ≡ succeeded answer)
      × (notices ≡ (if silent then [] else map (λ k. notified k c new) d.callbacks))
unfolding check_chain_health record_success record_failure status_of_count notify_callbacks
check_chain_health_lem c other answer latency now d =
    ground (arith, length-in_window-pos now (d.failure_timestamps c))
