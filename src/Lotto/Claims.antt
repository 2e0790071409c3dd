-- ===== src/Lotto/Claims.antt =====
-- The claims of prizes and rewards, and the end of an epoch (contracts/lotto/src/contract.rs and
-- helpers.rs).
pub mod Boost
pub mod Once
pub mod Kept
pub mod Runs
pub mod Balance
use glow_contracts.Base.{
  ℕ, true, not, ◌&&◌, none, some, List, [], ◌∷◌, Result, ok, err, panic, lotto, ◌>>=◌, ◌>>◌,
  fail_if, nat_beq, ltb, if◌then◌else◌, at_time, pair_eq, invalid_claim_lottery_not_awarded,
  invalid_claim_prize_already_claimed, insufficient_claimable_funds, insufficient_funds,
  not_registered, invalid_epoch_execution,
}
use glow_contracts.Dict.{lookup, insert}
use glow_contracts.Platform.{Platform}
use glow_contracts.Tax.{deduct_tax}
use glow_contracts.Lotto.Types.{
  Store, State, Config, BoostConfig, LotteryInfo, PrizeInfo, DepositorStatsInfo, Addr, Env,
  MessageInfo, Coin, Msg, bank_send, spend,
}
use glow_contracts.Lotto.Storage.{
  read_lottery_info, read_depositor_stats_at_height, contracts_registered, read_sponsor_info,
  read_operator_info, store_sponsor_info, store_operator_info,
}
use glow_contracts.Lotto.Rewards.{
  compute_global_operator_reward, compute_global_sponsor_reward, compute_operator_reward,
  compute_sponsor_reward,
}
use glow_contracts.Lotto.Deposit.{check_not_started, decimal_from_ratio_or_one}

-- A query that fails counts as a balance of zero.
abbrev pub or_zero : Result ℕ → ℕ
or_zero (ok n) = n
or_zero (err e) = 0

module _ (p : Platform) where
  open p use {
    add, sub, add128, to_uint128, multiply_ratio, mul_dec, one, dec_add, dec_sub, dec_mul,
    dec_from_ratio, voting_balance_at, total_voting_balance_at, bank_balance, is_expired,
    add_duration,
  }

  -- The part of the boost that comes from voting power.
  unfoldable pub voting_boost : BoostConfig → ℕ → ℕ → ℕ → ℕ → Result ℕ
  unfolding decimal_from_ratio_or_one
  voting_boost b user_shares total_user_shares user_voting total_voting = do
    inverted ← decimal_from_ratio_or_one p total_user_shares user_shares
    weighted ← mul_dec total_voting b.total_voting_power_weight
    proportion ← dec_from_ratio user_voting weighted
    slope ← dec_sub b.max_multiplier b.base_multiplier
    dec_mul (← dec_mul inverted proportion) slope

  unfoldable pub calculate_boost_multiplier : BoostConfig → ℕ → ℕ → ℕ → ℕ → Result ℕ
  unfolding voting_boost
  calculate_boost_multiplier b user_shares total_user_shares user_voting total_voting = do
    boost ←
        if ltb 0 total_voting && ltb 0 user_shares
        then voting_boost b user_shares total_user_shares user_voting total_voting
        else ok 0
    multiplier ← dec_add b.base_multiplier boost
    ok (if ltb b.max_multiplier multiplier then b.max_multiplier else multiplier)

  -- The loop over the buckets, with the sums as they stand before it.
  unfoldable pub winner_prize :
      Result ℕ → List ℕ → List ℕ → List ℕ → List ℕ → ℕ → ℕ → Result (ℕ × ℕ)
  winner_prize multiplier [] bs gs ms ust glow = ok (ust, glow)
  winner_prize multiplier (n ∷ ns) (b ∷ bs) (g ∷ gs) (m ∷ ms) ust glow =
      let rest = winner_prize multiplier ns bs gs ms in
      let pay = do
        amount ← to_uint128 (← multiply_ratio b m n)
        ust1 ← add128 ust amount
        raw ← multiply_ratio g m n
        boosted ← mul_dec raw (← multiplier)
        glow1 ← add128 glow (← to_uint128 boosted)
        rest ust1 glow1
      in if nat_beq n 0 then rest ust glow else pay
  winner_prize multiplier (n ∷ ns) bs gs ms ust glow = err panic

  unfoldable pub calculate_winner_prize :
      Config → PrizeInfo → LotteryInfo → DepositorStatsInfo → Addr → Result (ℕ × ℕ)
  unfolding winner_prize calculate_boost_multiplier
  calculate_winner_prize config prize lottery stats winner =
      let user_voting =
        or_zero (voting_balance_at config.ve_contract winner lottery.block_height) in
      let total_voting =
        or_zero (total_voting_balance_at config.ve_contract lottery.block_height) in
      let multiplier =
        calculate_boost_multiplier config.lotto_winner_boost_config stats.shares
          lottery.total_user_shares user_voting total_voting in
      winner_prize multiplier lottery.number_winners lottery.prize_buckets
        lottery.glow_prize_buckets prize.matches 0 0

  -- One lottery of the claim: the storage and the sums after it.
  unfoldable pub claim_one : Addr → ℕ → Store → ℕ → ℕ → Result (Store × (ℕ × ℕ))
  unfolding calculate_winner_prize
  claim_one sender id s ust glow =
      let lottery = read_lottery_info s id in
      let take_prize = λ (prize : PrizeInfo). do
        fail_if prize.claimed (lotto (invalid_claim_prize_already_claimed id))
        let stats = read_depositor_stats_at_height s sender lottery.block_height
        (local_ust, local_glow) ← calculate_winner_prize s.config prize lottery stats sender
        ust1 ← add128 ust local_ust
        glow1 ← add128 glow local_glow
        ok (
          record s { prizes = insert (id, sender) (record prize { claimed = true }) s.prizes },
          (ust1, glow1),
        )
      in do
        fail_if (not lottery.awarded) (lotto (invalid_claim_lottery_not_awarded id))
        elim (lookup (id, sender) s.prizes) [
          | none ↦ ok (s, (ust, glow))
          | some prize ↦ take_prize prize
        ]

  unfoldable pub claim_all : Addr → List ℕ → Store → ℕ → ℕ → Result (Store × (ℕ × ℕ))
  unfolding claim_one
  claim_all sender [] s ust glow = ok (s, (ust, glow))
  claim_all sender (id ∷ ids) s ust glow = do
    (s1, (ust1, glow1)) ← claim_one sender id s ust glow
    claim_all sender ids s1 ust1 glow1

  unfoldable pub execute_claim_lottery :
      Store → Env → MessageInfo → List ℕ → Result (Store × List Msg)
  unfolding claim_all check_not_started
  execute_claim_lottery s env info lottery_ids = do
    check_not_started s
    (s1, (ust_to_send, glow_to_send)) ← claim_all info.sender lottery_ids s 0 0
    fail_if (nat_beq ust_to_send 0) (lotto insufficient_claimable_funds)
    net_send ← deduct_tax p s.config.stable_denom ust_to_send
    balance ← bank_balance env.contract s.config.stable_denom
    available ← to_uint128 balance
    fail_if (ltb available ust_to_send) (lotto (insufficient_funds ust_to_send balance))
    let sent : Coin = record { denom = s.config.stable_denom; coin_amount = net_send }
    let glow_msgs =
        if nat_beq glow_to_send 0
        then []
        else spend s.config.distributor_contract info.sender glow_to_send ∷ []
    ok (s1, bank_send info.sender sent ∷ glow_msgs)

  unfoldable pub execute_epoch_ops : Store → Env → Result (Store × List Msg)
  unfolding contracts_registered check_not_started
  execute_epoch_ops s env = do
    fail_if (not (contracts_registered s.config)) (lotto not_registered)
    fail_if (not (is_expired s.state.next_epoch env.block)) (lotto invalid_epoch_execution)
    check_not_started s
    state1 ← compute_global_operator_reward p s.state s.pool env.block.block_height
    state2 ← compute_global_sponsor_reward p state1 s.pool env.block.block_height
    let send_reserve = do
      net ← deduct_tax p s.config.stable_denom state2.total_reserve
      let sent : Coin = record { denom = s.config.stable_denom; coin_amount = net }
      ok (bank_send s.config.community_contract sent ∷ [])
    msgs ← if nat_beq state2.total_reserve 0 then ok [] else send_reserve
    next ← add_duration (at_time env.block.block_time) s.config.epoch_interval
    let state3 : State = record state2 { next_epoch = next; total_reserve = 0 }
    ok (record s { state = state3 }, msgs)

  unfoldable pub execute_claim_rewards : Store → Env → MessageInfo → Result (Store × List Msg)
  unfolding contracts_registered read_sponsor_info read_operator_info store_sponsor_info
      store_operator_info
  execute_claim_rewards s env info = do
    let sponsor = read_sponsor_info s info.sender
    let operator = read_operator_info s info.sender
    fail_if (not (contracts_registered s.config)) (lotto not_registered)
    state1 ← compute_global_operator_reward p s.state s.pool env.block.block_height
    state2 ← compute_global_sponsor_reward p state1 s.pool env.block.block_height
    operator1 ← compute_operator_reward p state2 operator
    sponsor1 ← compute_sponsor_reward p state2 sponsor
    pending ← dec_add operator1.pending_rewards sponsor1.pending_rewards
    claim_amount ← mul_dec 1 pending
    let s1 =
        store_sponsor_info (record s { state = state2 }) info.sender
          (record sponsor1 { pending_rewards = 0 })
    let s2 = store_operator_info s1 info.sender (record operator1 { pending_rewards = 0 })
    let msgs =
        if nat_beq claim_amount 0
        then []
        else spend s.config.distributor_contract info.sender claim_amount ∷ []
    ok (s2, msgs)
