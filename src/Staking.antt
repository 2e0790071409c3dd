-- ===== src/Staking.antt =====
-- The staking contract (contracts/staking).
pub mod Types
pub mod Rewards
pub mod Schedules
pub mod Contract
pub mod Solvency
pub mod Runs
pub mod Examples
