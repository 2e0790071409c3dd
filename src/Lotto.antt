-- ===== src/Lotto.antt =====
-- The lotto contract (contracts/lotto/src): its types and storage, and a module for each part of
-- its behaviour.
pub mod Types
pub mod Storage
pub mod Rewards
pub mod Tickets
pub mod Operators
pub mod Books
pub mod Deposit
pub mod Withdraw
pub mod Sponsor
pub mod Unbonding
pub mod Draw
pub mod Prize
pub mod Claims
pub mod Admin
pub mod Steps
mod Examples
