-- ===== src/Gov.antt =====
-- The governance contract (contracts/gov).
pub mod Types
pub mod Staking
pub mod Polls
pub mod Contract
pub mod Books
pub mod Runs
pub mod Examples
