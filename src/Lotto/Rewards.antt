-- ===== src/Lotto/Rewards.antt =====
-- The GLOW reward indices of operators and sponsors (the first part of
-- contracts/lotto/src/helpers.rs).
pub mod Laws
use glow_contracts.Base.{ℕ, ◌-◌, Bool, ◌||◌, Result, ok, ◌>>=◌, leb, nat_beq, if◌then◌else◌}
use glow_contracts.Platform.{Platform}
use glow_contracts.Lotto.Types.{RewardEmissionsIndex, State, Pool, OperatorInfo, SponsorInfo}

module _ (p : Platform) where
  open p use {dec_add, dec_sub, dec_mul, dec_div, dec_from_uint}

  -- The index after `reward_accrued` is shared out among `spread`.
  unfoldable pub grown_index : ℕ → ℕ → ℕ → Result ℕ
  grown_index index reward_accrued spread =
      if nat_beq reward_accrued 0 || nat_beq spread 0
      then ok index
      else do share ← dec_div reward_accrued (← dec_from_uint spread); dec_add index share

  unfoldable pub compute_global_reward : RewardEmissionsIndex → ℕ → ℕ → Result RewardEmissionsIndex
  unfolding grown_index
  compute_global_reward r spread block_height =
      if leb block_height r.last_reward_updated then ok r else do
        passed_blocks ← dec_from_uint (block_height - r.last_reward_updated)
        reward_accrued ← dec_mul passed_blocks r.glow_emission_rate
        index ← grown_index r.global_reward_index reward_accrued spread
        ok (record r { global_reward_index = index; last_reward_updated = block_height })

  unfoldable pub compute_global_operator_reward : State → Pool → ℕ → Result State
  compute_global_operator_reward s pool height = do
    r ← compute_global_reward s.operator_reward_emission_index pool.total_operator_shares height
    ok (record s { operator_reward_emission_index = r })

  unfoldable pub compute_global_sponsor_reward : State → Pool → ℕ → Result State
  compute_global_sponsor_reward s pool height = do
    r ←
        compute_global_reward s.sponsor_reward_emission_index pool.total_sponsor_lottery_deposits
          height
    ok (record s { sponsor_reward_emission_index = r })

  unfoldable pub compute_operator_reward : State → OperatorInfo → Result OperatorInfo
  compute_operator_reward s o =
      let index = s.operator_reward_emission_index.global_reward_index in
      do
        grown ← dec_sub index o.reward_index
        earned ← dec_mul (← dec_from_uint o.shares) grown
        pending ← dec_add o.pending_rewards earned
        ok (record o { pending_rewards = pending; reward_index = index })

  unfoldable pub compute_sponsor_reward : State → SponsorInfo → Result SponsorInfo
  compute_sponsor_reward s i =
      let index = s.sponsor_reward_emission_index.global_reward_index in
      do
        grown ← dec_sub index i.reward_index
        earned ← dec_mul (← dec_from_uint i.lottery_deposit) grown
        pending ← dec_add i.pending_rewards earned
        ok (record i { pending_rewards = pending; reward_index = index })
