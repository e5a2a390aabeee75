-- ===== src/Positions.antt =====
-- bot/core/position_manager.py: class PositionManager.
pub mod Types
pub use Types.*
pub mod Legs
pub mod Open
pub mod Close
pub mod CloseLaws
pub mod OpenLaws
pub mod Spares
pub mod Lives
pub mod OpenGaps
pub mod Preflight
pub mod PreflightLaws
pub mod Rebalance
