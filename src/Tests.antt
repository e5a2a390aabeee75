-- ===== src/Tests.antt =====
-- The definitions and the theorems at concrete inputs.
pub mod Decimals
mod Pause
mod Transactions
mod Fills
mod Positions
mod Outage
mod Risk
mod UserRisk
mod Security
mod Sizing
mod Preflight
mod PauseUsers
mod Rebalance
mod Services
mod Monitor
mod Intents
mod Scanner
mod Deposits
mod Gas
mod KillSwitch
mod Peg
mod RateLimit
mod Opportunities
mod Trader
mod Consensus
