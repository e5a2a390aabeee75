-- ===== src/Outage.antt =====
-- shared/chain/outage_detector.py: class OutageDetector, with Chain and ChainStatus of
-- shared/models/common.py. What the client of a chain answers to a health check is an argument, and
-- so is the time, in microseconds. The dicts have both chains from the start, so they are functions
-- of the chain. A callback is a number, and its exceptions are swallowed.
pub mod Windows
pub mod Histories
use asgard_hl_basisstrategy.Base.{
  message, ℕ, suc, ◌+◌, ◌*◌, String, Bool, true, false, Option, none, some, List, [], ◌∷◌, ◌++◌,
  map, length, filter, not, leb, ltb, if◌then◌else◌, Error, Result, ok, raises,
}

pub data Chain : Type 0 where
  solana arbitrum : Chain

abbrev pub Chain-discrete : Discrete Chain
Chain-discrete = hlevel

abbrev pub chain_eq : Chain → Chain → Bool
chain_eq a b = elim (Chain-discrete a b) [ yes h ↦ true | no h ↦ false ]

pub data ChainStatus : Type 0 where
  healthy degraded outage : ChainStatus

abbrev pub ChainStatus-discrete : Discrete ChainStatus
ChainStatus-discrete = hlevel

abbrev pub status_eq : ChainStatus → ChainStatus → Bool
status_eq a b = elim (ChainStatus-discrete a b) [ yes h ↦ true | no h ↦ false ]

pub record ChainHealth : Type 0 where
  pub chain : Chain
  pub status : ChainStatus
  pub last_check : ℕ
  pub consecutive_failures : ℕ
  pub last_success : Option ℕ
  pub error_message : Option String
  pub latency_ms : Option ℕ

abbrev pub max_consecutive_failures : ℕ
max_consecutive_failures = 3

-- `FAILURE_WINDOW_SECONDS`, in microseconds.
abbrev pub failure_window : ℕ
failure_window = 15 * 1000000

pub record OutageDetector : Type 0 where
  pub health_status : Chain → ChainHealth
  pub failure_timestamps : Chain → List ℕ
  pub callbacks : List ℕ

-- A callback that was run, with its arguments.
pub data Notice : Type 0 where
  notified : ℕ → Chain → ChainStatus → Notice

-- A dict with one value replaced.
abbrev pub update {ℓ} : {A : Type ℓ} → Chain → A → (Chain → A) → Chain → A
update c a f d = if chain_eq c d then a else f d

unfoldable pub init : ℕ → OutageDetector
init now = record {
  health_status = λ c. record {
    chain = c;
    status = healthy;
    last_check = now;
    consecutive_failures = 0;
    last_success = none;
    error_message = none;
    latency_ms = none;
  };
  failure_timestamps = λ c. [];
  callbacks = [];
}

unfoldable pub register_callback : ℕ → OutageDetector → OutageDetector
register_callback k d = record d { callbacks = d.callbacks ++ k ∷ [] }

unfoldable pub notify_callbacks : Chain → ChainStatus → OutageDetector → List Notice
notify_callbacks c s d = map (λ k. notified k c s) d.callbacks

unfoldable pub record_success :
    Chain → ℕ → ℕ → OutageDetector → OutageDetector × List Notice × ChainHealth
record_success c latency now d =
    let old = (d.health_status c).status in
    let health : ChainHealth = record {
      chain = c;
      status = healthy;
      last_check = now;
      consecutive_failures = 0;
      last_success = some now;
      error_message = none;
      latency_ms = some latency;
    } in
    let d' = record d {
      health_status = update c health d.health_status;
      failure_timestamps = update c [] d.failure_timestamps;
    } in
    (d', if status_eq old outage then notify_callbacks c healthy d' else [], health)

-- `[ts for ts in timestamps if ts > window_start]`
unfoldable pub in_window : ℕ → List ℕ → List ℕ
in_window now stamps = filter (λ ts. ltb now (ts + failure_window)) stamps

unfoldable pub status_of_count : ℕ → ChainStatus
status_of_count n =
    if leb max_consecutive_failures n then outage else if ltb 0 n then degraded else healthy

unfoldable pub record_failure :
    Chain → String → ℕ → OutageDetector → OutageDetector × List Notice × ChainHealth
record_failure c error now d =
    let old = (d.health_status c).status in
    let stamps = in_window now (d.failure_timestamps c ++ now ∷ []) in
    let failures = length stamps in
    let new = status_of_count failures in
    let health : ChainHealth = record {
      chain = c;
      status = new;
      last_check = now;
      consecutive_failures = failures;
      last_success = none;
      error_message = some error;
      latency_ms = none;
    } in
    let d' = record d {
      health_status = update c health d.health_status;
      failure_timestamps = update c stamps d.failure_timestamps;
    } in
    (d', if not (status_eq new old) then notify_callbacks c new d' else [], health)

-- The client's answer, and the milliseconds that it took.
unfoldable pub check_chain_health :
    Chain → Result Bool → ℕ → ℕ → OutageDetector → OutageDetector × List Notice × ChainHealth
check_chain_health c (ok true) latency now d = record_success c latency now d
check_chain_health c (ok false) latency now d = record_failure c "Health check returned false" now d
check_chain_health c (raises e) latency now d = record_failure c (message e) now d

unfoldable pub get_status : Chain → OutageDetector → ChainHealth
get_status c d = d.health_status c

unfoldable pub is_healthy : Chain → OutageDetector → Bool
is_healthy c d = status_eq (d.health_status c).status healthy

unfoldable pub is_outage : Chain → OutageDetector → Bool
is_outage c d = status_eq (d.health_status c).status outage
