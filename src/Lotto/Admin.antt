-- ===== src/Lotto/Admin.antt =====
-- Registration and configuration (contracts/lotto/src/contract.rs).
use glow_contracts.Base.{
  ℕ, ◌*◌, Bool, not, ◌||◌, Option, none, some, List, [], Result, ok, std, lotto, ◌>>=◌, ◌>>◌,
  fail_if, nat_beq, ltb, ◌&&◌, length, time, unauthorized, already_registered,
  invalid_reserve_factor, invalid_withdrawal_fee, invalid_epoch_interval,
  invalid_max_holders_outside_bounds, invalid_max_holders_attempted_decrease, invalid_boost_config,
}
use glow_contracts.Platform.{Platform}
use glow_contracts.Lotto.Types.{
  Store, State, Config, BoostConfig, Addr, MessageInfo, Msg, RewardEmissionsIndex,
}
use glow_contracts.Lotto.Storage.{contracts_registered}
use glow_contracts.Lotto.Sponsor.{check_distribution}

abbrev pub thirty_minute_time : ℕ
thirty_minute_time = 60 * 30

abbrev pub max_holders_floor : ℕ
max_holders_floor = 10

abbrev pub max_holders_cap : ℕ
max_holders_cap = 100

-- `ExecuteMsg::UpdateConfig`
pub record ConfigUpdate : Type 0 where
  pub owner : Option Addr
  pub oracle_addr : Option Addr
  pub reserve_factor : Option ℕ
  pub instant_withdrawal_fee : Option ℕ
  pub unbonding_period : Option ℕ
  pub epoch_interval : Option ℕ
  pub max_holders : Option ℕ
  pub max_tickets_per_depositor : Option ℕ
  pub paused : Option Bool
  pub lotto_winner_boost_config : Option BoostConfig
  pub operator_glow_emission_rate : Option ℕ
  pub sponsor_glow_emission_rate : Option ℕ

-- `ExecuteMsg::UpdateLotteryConfig`
pub record LotteryUpdate : Type 0 where
  pub lottery_interval : Option ℕ
  pub block_time : Option ℕ
  pub ticket_price : Option ℕ
  pub prize_distribution : Option (List ℕ)
  pub round_delta : Option ℕ

-- A setting that is given, once it has passed its test; otherwise the configuration as it is.
abbrev pub given : {A : Type 0} → Option A → Config → (A → Result Config) → Result Config
given none c f = ok c
given (some a) c f = f a

module _ (p : Platform) where
  open p use {addr_validate, one}

  unfoldable pub execute_register_contracts :
      Store → MessageInfo → Addr → Addr → Addr → Addr → Result (Store × List Msg)
  unfolding contracts_registered
  execute_register_contracts s info gov community distributor ve = do
    fail_if (not (nat_beq info.sender s.config.owner)) (lotto unauthorized)
    fail_if (contracts_registered s.config) (lotto already_registered)
    gov_contract ← addr_validate gov
    community_contract ← addr_validate community
    distributor_contract ← addr_validate distributor
    ve_contract ← addr_validate ve
    let config1 : Config = record s.config {
      gov_contract = gov_contract;
      community_contract = community_contract;
      distributor_contract = distributor_contract;
      ve_contract = ve_contract;
    }
    ok (record s { config = config1 }, [])

  -- The owner, the oracle and the factors.
  unfoldable pub update_roles : ConfigUpdate → Config → Result Config
  update_roles u c = do
    c1 ← given u.owner c (λ a. do owner ← addr_validate a; ok (record c { owner = owner }))
    c2 ← given u.oracle_addr c1 (λ a. do owner ← addr_validate a; ok (record c1 { owner = owner }))
    c3 ← given u.reserve_factor c2 (λ f. do
      fail_if (ltb one f) (lotto invalid_reserve_factor)
      ok (record c2 { reserve_factor = f }))
    given u.instant_withdrawal_fee c3 (λ f. do
      fail_if (ltb one f) (lotto invalid_withdrawal_fee)
      ok (record c3 { instant_withdrawal_fee = f }))

  -- The periods and the limits.
  unfoldable pub update_limits : ConfigUpdate → Config → Result Config
  update_limits u c = do
    c1 ← given u.unbonding_period c (λ d. ok (record c { unbonding_period = time d }))
    c2 ← given u.epoch_interval c1 (λ d. do
      fail_if (ltb d thirty_minute_time) (lotto invalid_epoch_interval)
      ok (record c1 { epoch_interval = time d }))
    c3 ← given u.max_holders c2 (λ n. do
      fail_if (ltb n max_holders_floor || ltb max_holders_cap n)
          (lotto invalid_max_holders_outside_bounds)
      fail_if (ltb n c2.max_holders) (lotto invalid_max_holders_attempted_decrease)
      ok (record c2 { max_holders = n }))
    given u.max_tickets_per_depositor c3 (λ n. ok (record c3 { max_tickets_per_depositor = n }))

  -- The pause, which ends only when no old depositor is left, and the boost.
  unfoldable pub update_pause : List Addr → ConfigUpdate → Config → Result Config
  update_pause old u c = do
    c1 ← given u.paused c (λ b. do
      fail_if (not b && ltb 0 (length old)) (std "Cannot unpause contract with old depositors")
      ok (record c { paused = b }))
    given u.lotto_winner_boost_config c1 (λ b. do
      fail_if (ltb b.max_multiplier b.base_multiplier) (lotto invalid_boost_config)
      ok (record c1 { lotto_winner_boost_config = b }))

  abbrev pub with_rate : Option ℕ → RewardEmissionsIndex → RewardEmissionsIndex
  with_rate none r = r
  with_rate (some rate) r = record r { glow_emission_rate = rate }

  unfoldable pub execute_update_config :
      Store → MessageInfo → ConfigUpdate → Result (Store × List Msg)
  unfolding update_roles update_limits update_pause
  execute_update_config s info u = do
    fail_if (not (nat_beq info.sender s.config.owner)) (lotto unauthorized)
    c1 ← update_roles u s.config
    c2 ← update_limits u c1
    c3 ← update_pause s.old_depositors u c2
    let state1 : State = record s.state {
      operator_reward_emission_index =
          with_rate u.operator_glow_emission_rate s.state.operator_reward_emission_index;
      sponsor_reward_emission_index =
          with_rate u.sponsor_glow_emission_rate s.state.sponsor_reward_emission_index;
    }
    ok (record s { config = c3; state = state1 }, [])

  unfoldable pub execute_update_lottery_config :
      Store → MessageInfo → LotteryUpdate → Result (Store × List Msg)
  unfolding check_distribution
  execute_update_lottery_config s info u = do
    fail_if (not (nat_beq info.sender s.config.owner)) (lotto unauthorized)
    let c = s.config
    c1 ← given u.lottery_interval c (λ d. ok (record c { lottery_interval = time d }))
    c2 ← given u.block_time c1 (λ d. ok (record c1 { block_time = time d }))
    c3 ← given u.round_delta c2 (λ n. ok (record c2 { round_delta = n }))
    c4 ← given u.ticket_price c3 (λ n. ok (record c3 { ticket_price = n }))
    c5 ←
        given u.prize_distribution c4
          (λ d. do check_distribution p d; ok (record c4 { prize_distribution = d }))
    ok (record s { config = c5 }, [])
