-- ===== src/Lotto/Unbonding.antt =====
-- The payment of unbonded withdrawals (contracts/lotto/src/helpers.rs and contract.rs).
pub mod Payment
pub mod Balance
use glow_contracts.Base.{
  ℕ, ◌+◌, Bool, true, false, not, Option, none, some, List, [], ◌∷◌, Result, ok, err, lotto, ◌>>=◌,
  ◌>>◌, fail_if, nat_beq, ltb, if◌then◌else◌, insufficient_claimable_funds, insufficient_funds,
  Block,
}
use glow_contracts.Platform.{Platform}
use glow_contracts.Tax.{deduct_tax}
use glow_contracts.Lotto.Types.{
  Store, State, Config, DepositorInfo, Addr, Env, MessageInfo, Coin, Msg, Claim, bank_send,
}
use glow_contracts.Lotto.Storage.{read_depositor_info, store_depositor_info}
use glow_contracts.Lotto.Deposit.{check_not_started}

module _ (p : Platform) where
  open p use {add, sub, add128, to_uint128, is_expired, bank_balance}

  -- The test of one mature claim against the cap: the new sum if it is paid.
  unfoldable pub within_cap : ℕ → ℕ → Option ℕ → Result Bool
  within_cap to_send amount none = ok true
  within_cap to_send amount (some limit) = do
    sum ← add128 to_send (← to_uint128 amount)
    ok (not (ltb limit sum))

  -- The `partition` of the claims: the sum to send, and the claims that wait, in order.
  unfoldable pub partition_claims : List Claim → Block → Option ℕ → ℕ → Result (ℕ × List Claim)
  unfolding within_cap
  partition_claims [] block cap to_send = ok (to_send, [])
  partition_claims (c ∷ cs) block cap to_send =
      let keep = do (sum, waiting) ← partition_claims cs block cap to_send; ok (sum, c ∷ waiting)
      in let pay = do
        sum ← add128 to_send (← to_uint128 c.amount)
        partition_claims cs block cap sum
        in let mature = do fits ← within_cap to_send c.amount cap; if fits then pay else keep
          in if is_expired c.release_at block then mature else keep

  unfoldable pub claim_unbonded_withdrawals :
      DepositorInfo → Block → Option ℕ → Result (DepositorInfo × ℕ)
  unfolding partition_claims
  claim_unbonded_withdrawals i block cap = do
    (to_send, waiting) ← partition_claims i.unbonding_info block cap 0
    ok (record i { unbonding_info = waiting }, to_send)

  unfoldable pub sum_buckets : ℕ → List ℕ → Result ℕ
  sum_buckets acc [] = ok acc
  sum_buckets acc (b ∷ bs) = do total ← add acc b; sum_buckets total bs

  unfoldable pub execute_claim_unbonded : Store → Env → MessageInfo → Result (Store × List Msg)
  unfolding claim_unbonded_withdrawals check_not_started sum_buckets
  execute_claim_unbonded s env info = do
    let i = read_depositor_info p s info.sender
    (i1, to_send) ← claim_unbonded_withdrawals i env.block none
    check_not_started s
    fail_if (nat_beq to_send 0) (lotto insufficient_claimable_funds)
    net_send ← deduct_tax p s.config.stable_denom to_send
    balance ← bank_balance env.contract s.config.stable_denom
    reserved_for_prizes ← sum_buckets 0 s.state.prize_buckets
    available_balance ← sub balance reserved_for_prizes
    available ← to_uint128 available_balance
    fail_if (ltb available to_send) (lotto (insufficient_funds to_send available_balance))
    s1 ← store_depositor_info p s info.sender i1 env.block.block_height
    let sent : Coin = record { denom = s.config.stable_denom; coin_amount = net_send }
    ok (s1, bank_send info.sender sent ∷ [])
