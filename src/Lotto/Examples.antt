-- ===== src/Lotto/Examples.antt =====
-- Runs of the lotto's handlers on a small state, and the theorems applied to them.
mod Scenario
mod Deposits
mod Withdrawals
mod Parts
mod Prizes
mod Sponsors
