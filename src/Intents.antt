-- ===== src/Intents.antt =====
-- bot/core/intent_scanner.py: class IntentScanner, and backend/dashboard/api/intents.py, which makes
-- and cancels the intents. The tables position_intents and positions are dicts from their primary
-- keys; the order of the intents is that of their creation, in which the scanner reads them. What
-- the venues, the oracle and the database's checks of a user answer is an argument.
pub mod Types
pub mod Criteria
pub mod Execute
pub mod Cycle
pub mod Requests
pub mod States
pub mod Rows
pub mod Lives
pub mod Handover
