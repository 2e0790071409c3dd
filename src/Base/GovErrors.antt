-- ===== src/Base/GovErrors.antt =====
-- `ContractError` of the governance contract (contracts/gov/src/error.rs), beside `StdError`.
use Prim.Native.Nat.{ℕ}

pub data GovError : Type 0 where
  overflow_error : GovError
  unauthorized : GovError
  asset_mismatch : GovError
  data_should_be_given : GovError
  insufficient_funds : GovError
  insufficient_proposal_deposit : ℕ → GovError
  insufficient_reward : GovError
  insufficient_staked : GovError
  nothing_staked : GovError
  invalid_withdraw_amount : GovError
  nothing_to_withdraw : GovError
  poll_not_found : GovError
  snapshot_already_occurred : GovError
  timelock_not_expired : GovError
  poll_not_in_progress : GovError
  poll_not_passed : GovError
  snapshot_height : GovError
  already_voted : GovError
  no_execute_data : GovError
  poll_not_expired : GovError
  poll_voting_period : GovError
