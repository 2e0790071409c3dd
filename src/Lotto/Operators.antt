-- ===== src/Lotto/Operators.antt =====
-- The operator of a depositor after a deposit (contracts/lotto/src/helpers.rs).
pub mod Shares
use glow_contracts.Base.{
  ℕ, Option, none, some, Result, ok, std, ◌>>=◌, ◌>>◌, fail_if, nat_beq, if◌then◌else◌,
}
use glow_contracts.Platform.{Platform}
use glow_contracts.Lotto.Types.{Store, State, Pool, DepositorInfo, OperatorInfo, Addr}
use glow_contracts.Lotto.Storage.{operator_registered, read_operator_info, store_operator_info}
use glow_contracts.Lotto.Rewards.{compute_operator_reward}

module _ (p : Platform) where
  open p use {add, addr_validate}

  -- An operator's reward is brought up to date, and its shares grow.
  unfoldable pub grow_operator : Store → State → Addr → ℕ → Result Store
  unfolding read_operator_info store_operator_info
  grow_operator s state operator shares = do
    o ← compute_operator_reward p state (read_operator_info s operator)
    total ← add o.shares shares
    ok (store_operator_info s operator (record o { shares = total }))

  -- The branch of a depositor without an operator.
  unfoldable pub assign_operator :
      Store
      → State
      → Pool
      → Addr
      → DepositorInfo
      → ℕ
      → Option Addr
      → Result (Store × (Pool × DepositorInfo))
  unfolding grow_operator
  assign_operator s state pool depositor i minted_shares none = ok (s, (pool, i))
  assign_operator s state pool depositor i minted_shares (some new_operator_addr) = do
    operator ← addr_validate new_operator_addr
    fail_if (nat_beq operator depositor) (std "You cannot assign yourself as your own operator")
    post_transaction_depositor_shares ← add i.shares minted_shares
    s1 ← grow_operator s state operator post_transaction_depositor_shares
    total ← add pool.total_operator_shares minted_shares
    ok (s1, (record pool { total_operator_shares = total }, record i { operator_addr = operator }))

  unfoldable pub handle_depositor_operator_updates :
      Store
      → State
      → Pool
      → Addr
      → DepositorInfo
      → ℕ
      → Option Addr
      → Result (Store × (Pool × DepositorInfo))
  unfolding operator_registered assign_operator
  handle_depositor_operator_updates s state pool depositor i minted_shares new_operator_addr =
      if operator_registered i
      then (do
        s1 ← grow_operator s state i.operator_addr minted_shares
        total ← add pool.total_operator_shares minted_shares
        ok (s1, (record pool { total_operator_shares = total }, i)))
      else assign_operator s state pool depositor i minted_shares new_operator_addr
