-- ===== src/Monitor.antt =====
-- bot/core/position_monitor.py: class PositionMonitorService, over the tables positions,
-- position_history, user_strategy_config and those of the user risk manager, each a dict from its
-- primary key. What the venues answer about a position is an argument. A JSON document of a position
-- is a record of its optional keys, none of which holds null.
pub mod Types
pub mod Exit
pub mod Cycle
pub mod Decisions
pub mod Steps
pub mod History
pub mod Refusals
