-- ===== src/Lib.antt =====
-- Verification of a delta-neutral funding bot that holds a long on Asgard (Solana) against a short on
-- Hyperliquid. The library models the bot's own decisions and state in Python, component by
-- component, and proves what each promises. Paths are from the repository's root.
--
-- Parts and files:
-- * Pause (bot/core/pause_controller.py, class PauseController). Pause holds the controller, `pause`,
--   `resume` and the queries; Pause/Breakers the circuit breakers and `check_and_recover`. The loop of
--   the recovery walks by position over the list that its body changes. Pause/Calls makes histories of
--   the calls that change the state. Pause/Users has the pauses of single users, in the table `users`.
-- * Transactions (bot/state/state_machine.py, classes StateStore and TransactionStateMachine). The
--   SQLite table is the list of its rows. `transition` takes a `Request`, the arguments with the two
--   readings of the clock.
-- * Fills (bot/core/fill_validator.py, class FillValidator).
-- * Positions (bot/core/position_manager.py, class PositionManager). Positions/Types has the data of
--   shared/models and of the venues, Positions/Legs the opening of each leg and
--   `_validate_position_entry`, Positions/Open `open_position` by its steps,
--   Positions/Preflight the preflight checks, Positions/Close
--   `close_position` and the methods that read or refresh positions,
--   Positions/Lives histories of the calls that change the tracked positions,
--   Positions/Rebalance the net exposure and `rebalance_if_needed`. The position manager calls the
--   fill validator, as the code does; `Venues` holds what the venues answer in one call of a method,
--   and the list of `VenueCall` the requests made, in order.
-- * Outage (shared/chain/outage_detector.py, class OutageDetector).
-- * Risk (bot/core/risk_engine.py, class RiskEngine). Risk has the checks, Risk/Exit
--   `evaluate_exit_trigger` by its steps.
-- * UserRisk (bot/core/user_risk_manager.py, class UserRiskManager) over the table of
--   migrations/015_user_risk_tracking.sql. UserRisk has the drawdown methods, UserRisk/Limits the
--   trades and failures.
-- * Monitor (bot/core/position_monitor.py, class PositionMonitorService). Monitor/Types has the rows,
--   Monitor/Exit the exit decisions and `_execute_exit`, Monitor/Cycle the rest of a cycle. What asyncpg
--   makes of the text for a TIMESTAMP is an answer, as those of the venues are.
-- * Intents (bot/core/intent_scanner.py, class IntentScanner, and backend/dashboard/api/intents.py).
--   Intents/Criteria, Intents/Execute and Intents/Cycle are the scan, Intents/Requests the routes that
--   make and cancel intents. An intent opens its position by the position manager of Positions and
--   stores it for the monitor.
-- * Scanner (bot/core/autonomous_scanner.py, class AutonomousScanner). Scanner/Entry has the criteria
--   and the cooldown, Scanner/Open the opening, with Positions and UserRisk, Scanner/Cycle the cycle.
-- * Services (the same three files): the background loop that the three classes share.
-- * Opportunities (bot/core/opportunity_detector.py, class OpportunityDetector, with
--   shared/models/opportunity.py). Opportunities/Scan is the scan, Opportunities/Sorting Python's sort.
-- * Trader (bot/venues/hyperliquid/trader.py, class HyperliquidTrader): `open_short` and `close_short`,
--   one attempt for each of `max_retries`.
-- * Consensus (bot/core/price_consensus.py, class PriceConsensus).
-- * Peg (bot/core/lst_monitor.py, class LSTMonitor) and KillSwitch (bot/core/kill_switch.py, class
--   KillSwitchMonitor): the two monitors that only watch and tell.
-- * Gas (bot/services/gas_funder.py, class GasFunder) and Deposits
--   (bot/services/deposit_reconciler.py): one call of each of the two background jobs.
-- * RateLimit (backend/dashboard/middleware/rate_limit.py, class RateLimitMiddleware).
-- * Sizing (bot/core/position_sizer.py, class PositionSizer).
-- * Security (shared/security/transaction_validator.py, class TransactionValidator).
-- * Base has the shared tests on numbers and texts, lists, dicts with text keys and their laws, the
--   exceptions and results, and `Numbers`.
-- * Tests runs the definitions and applies the theorems at concrete inputs.
--
-- How the code is read. State is passed explicitly: an operation gives the new state and its result,
-- and an exception that leaves it is the result `raises`, with its message up to the values it
-- quotes. Decimal and float are the parameter `Numbers`, finite values with the operations that the
-- code uses; a size in a text like f'{size:.6f}' is rounded by `round`. Where a theorem compares
-- them it assumes `IsOrdered`, a linear order. Tests/Decimals gives an instance with six decimal
-- places. Times are natural numbers of microseconds, read once in a call unless a file says
-- otherwise. A callback is a number, and the list of notices says which were run with what. Every
-- loop is structural recursion, so no fuel is used; the recovery loop recurses on the number of
-- breakers that are left. Awaits in one method are taken as one step, so two calls do not
-- interleave.
--
-- Not modelled: logging and display, network clients and signing, asyncio tasks that repeat a
-- check, most of pydantic's range checks on the models, the frontend, scripts and deployment. The
-- bot's own loop, the persistence of positions and most of the dashboard's backend are not modelled.
pub mod Base
pub mod Pause
pub mod Transactions
pub mod Consensus
pub mod Deposits
pub mod Fills
pub mod Gas
pub mod Intents
pub mod KillSwitch
pub mod Monitor
pub mod Scanner
pub mod Services
pub mod Positions
pub mod Opportunities
pub mod Outage
pub mod Peg
pub mod RateLimit
pub mod Risk
pub mod UserRisk
pub mod Security
pub mod Sizing
pub mod Trader
pub mod Tests
