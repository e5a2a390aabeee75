-- ===== src/Scanner.antt =====
-- bot/core/autonomous_scanner.py: class AutonomousScanner, over the tables user_strategy_config,
-- users, positions and those of the user risk manager, with the position manager of the component
-- Positions. What the oracle, the venues and the database's advisory lock answer is an argument.
pub mod Types
pub mod Entry
pub mod Open
pub mod Cycle
pub mod Limits
pub mod Chances
