-- ===== src/Staking/Rewards.antt =====
-- The rewards of stakers (contracts/staking/src/contract.rs and state.rs).
use glow_contracts.Base.{
  ℕ, min, max, ◌||◌, List, [], ◌∷◌, Result, ok, ◌>>=◌, nat_beq, nat_eq, ltb, minus, or_default,
  if◌then◌else◌, Addr,
}
use glow_contracts.Dict.{lookup, insert, remove}
use glow_contracts.Platform.{Platform}
use glow_contracts.Staking.Types.{Store, Config, State, StakerInfo, Schedule}

abbrev pub no_staker : StakerInfo
no_staker = record { reward_index = 0; bond_amount = 0; pending_reward = 0 }

unfoldable pub read_staker_info : Store → Addr → StakerInfo
read_staker_info s owner = or_default no_staker (lookup owner s.stakers)

unfoldable pub store_staker_info : Store → Addr → StakerInfo → Store
store_staker_info s owner i = record s { stakers = insert owner i s.stakers }

unfoldable pub remove_staker_info : Store → Addr → Store
remove_staker_info s owner = record s { stakers = remove owner s.stakers }

module _ (p : Platform) where
  open p use {add128, sub128, decimal_add, decimal_from_ratio, mul_decimal}

  -- What one schedule distributes from the last distribution to a time.
  unfoldable pub slot_amount : ℕ → ℕ → Schedule → Result ℕ
  slot_amount last_distributed block_time (start, (end, amount)) =
      if ltb block_time start || ltb end last_distributed then ok 0 else do
        elapsed_time ← minus (min end block_time) (max start last_distributed)
        total_time ← minus end start
        distribution_amount_per_second ← decimal_from_ratio amount total_time
        mul_decimal elapsed_time distribution_amount_per_second

  unfoldable pub sum_slots : ℕ → ℕ → ℕ → List Schedule → Result ℕ
  unfolding slot_amount
  sum_slots last_distributed block_time distributed_amount [] = ok distributed_amount
  sum_slots last_distributed block_time distributed_amount (s ∷ l) = do
    amount ← slot_amount last_distributed block_time s
    sum ← add128 distributed_amount amount
    sum_slots last_distributed block_time sum l

  -- The amount that `compute_reward` distributes.
  unfoldable pub distributed_amount : Config → State → ℕ → Result ℕ
  unfolding sum_slots
  distributed_amount config state block_time =
      if nat_beq state.total_bond_amount 0
      then ok 0
      else sum_slots state.last_distributed block_time 0 config.distribution_schedule

  unfoldable pub compute_reward : Config → State → ℕ → Result State
  unfolding sum_slots
  compute_reward config state block_time =
      if nat_beq state.total_bond_amount 0
      then ok (record state { last_distributed = block_time })
      else do
        amount ← sum_slots state.last_distributed block_time 0 config.distribution_schedule
        growth ← decimal_from_ratio amount state.total_bond_amount
        index ← decimal_add state.global_reward_index growth
        ok (record state { last_distributed = block_time; global_reward_index = index })

  unfoldable pub compute_staker_reward : State → StakerInfo → Result StakerInfo
  compute_staker_reward state i = do
    earned ← mul_decimal i.bond_amount state.global_reward_index
    credited ← mul_decimal i.bond_amount i.reward_index
    pending_reward ← sub128 earned credited
    total ← add128 i.pending_reward pending_reward
    ok (record i { reward_index = state.global_reward_index; pending_reward = total })

  unfoldable pub increase_bond_amount : State → StakerInfo → ℕ → Result (State × StakerInfo)
  increase_bond_amount state i amount = do
    total ← add128 state.total_bond_amount amount
    bond ← add128 i.bond_amount amount
    ok (record state { total_bond_amount = total }, record i { bond_amount = bond })

  unfoldable pub decrease_bond_amount : State → StakerInfo → ℕ → Result (State × StakerInfo)
  decrease_bond_amount state i amount = do
    total ← sub128 state.total_bond_amount amount
    bond ← sub128 i.bond_amount amount
    ok (record state { total_bond_amount = total }, record i { bond_amount = bond })
