-- ===== src/Lotto/Draw.antt =====
-- The execution of a lottery: what is redeemed, and the round of randomness
-- (contracts/lotto/src/prize_strategy.rs, helpers.rs and oracle.rs).
pub mod Balance
use glow_contracts.Base.{
  ℕ, ◌+◌, ◌-◌, ◌/◌, Bool, true, false, not, List, [], ◌∷◌, Result, ok, err, panic, lotto, ◌>>=◌,
  ◌>>◌, fail_if, nat_beq, ltb, checked, if◌then◌else◌, at_time, invalid_lottery_execution_funds,
  lottery_not_ready, invalid_lottery_execution_tickets, insufficient_lottery_funds,
}
use glow_contracts.Platform.{Platform}
use glow_contracts.Tax.{deduct_tax}
use glow_contracts.Lotto.Types.{
  Store, State, Pool, Config, LotteryInfo, Env, MessageInfo, Coin, Msg, redeem_stable,
}
use glow_contracts.Lotto.Storage.{store_lottery_info, no_lottery}
use glow_contracts.Lotto.Deposit.{check_not_started}
use glow_contracts.Lotto.Sponsor.{fill_buckets}

abbrev pub rand_genesis : ℕ
rand_genesis = 1595431050

abbrev pub rand_period : ℕ
rand_period = 30

abbrev pub no_funds : List Coin → Bool
no_funds [] = true
no_funds (c ∷ cs) = false

pub record RedeemedAust : Type 0 where
  pub value_of_user_aust : ℕ
  pub user_aust_to_redeem : ℕ
  pub value_of_sponsor_aust : ℕ
  pub sponsor_aust_to_redeem : ℕ
  pub aust_to_redeem : ℕ
  pub aust_to_redeem_value : ℕ

module _ (p : Platform) where
  open p use {
    add, sub, mul_dec, div_dec, dec_sub, seconds, exchange_rate, token_balance, addr_validate,
    is_expired, add_duration,
  }

  unfoldable pub calculate_lottery_rand_round : Env → ℕ → Result ℕ
  calculate_lottery_rand_round env round_delta =
      let now = seconds env.block.block_time in
      if ltb now rand_genesis
      then err panic
      else checked 64 ((now - rand_genesis) / rand_period + round_delta)

  unfoldable pub calculate_value_of_aust_to_be_redeemed_for_lottery :
      State → Pool → Config → ℕ → ℕ → Result RedeemedAust
  calculate_value_of_aust_to_be_redeemed_for_lottery state pool config contract_a_balance rate = do
    appreciation ← dec_sub rate state.last_lottery_execution_aust_exchange_rate
    user_value ← mul_dec (← mul_dec pool.total_user_aust appreciation) config.split_factor
    user_aust ← div_dec user_value rate
    total_sponsor_aust ← sub contract_a_balance pool.total_user_aust
    sponsor_whole ← mul_dec total_sponsor_aust rate
    sponsor_value ← sub sponsor_whole pool.total_sponsor_lottery_deposits
    sponsor_aust ← div_dec sponsor_value rate
    aust ← add user_aust sponsor_aust
    value ← mul_dec aust rate
    ok (record {
      value_of_user_aust = user_value;
      user_aust_to_redeem = user_aust;
      value_of_sponsor_aust = sponsor_value;
      sponsor_aust_to_redeem = sponsor_aust;
      aust_to_redeem = aust;
      aust_to_redeem_value = value;
    })

  unfoldable pub execute_lottery : Store → Env → MessageInfo → Result (Store × List Msg)
  unfolding check_not_started calculate_lottery_rand_round store_lottery_info
      calculate_value_of_aust_to_be_redeemed_for_lottery fill_buckets
  execute_lottery s env info = do
    aust_contract ← addr_validate s.config.a_terra_contract
    contract_a_balance ← token_balance aust_contract env.contract
    rate ← exchange_rate s.config.anchor_contract env.block.block_height
    fail_if (not (no_funds info.funds)) (lotto invalid_lottery_execution_funds)
    fail_if (not (is_expired s.state.next_lottery_time env.block))
        (lotto (lottery_not_ready s.state.next_lottery_time))
    fail_if (nat_beq s.state.total_tickets 0) (lotto invalid_lottery_execution_tickets)
    exec_time ← add_duration (at_time env.block.block_time) s.config.block_time
    check_not_started s
    round ← calculate_lottery_rand_round env s.config.round_delta
    let drawn : LotteryInfo = record no_lottery {
      rand_round = round;
      timestamp = env.block.block_time;
      block_height = env.block.block_height;
      total_user_shares = s.pool.total_user_shares;
    }
    redeemed ←
        calculate_value_of_aust_to_be_redeemed_for_lottery s.state s.pool s.config
          contract_a_balance rate
    net_amount ← deduct_tax p s.config.stable_denom redeemed.aust_to_redeem_value
    fail_if (nat_beq net_amount 0) (lotto insufficient_lottery_funds)
    buckets ← fill_buckets p net_amount s.config.prize_distribution s.state.prize_buckets
    total_user_aust ← sub s.pool.total_user_aust redeemed.user_aust_to_redeem
    let state1 : State = record s.state {
      next_lottery_exec_time = exec_time;
      prize_buckets = buckets;
      last_lottery_execution_aust_exchange_rate = rate;
    }
    let pool1 : Pool = record s.pool { total_user_aust = total_user_aust }
    ok (
      record (store_lottery_info s s.state.current_lottery drawn) { state = state1; pool = pool1 },
      redeem_stable s.config.a_terra_contract s.config.anchor_contract redeemed.aust_to_redeem ∷ [],
    )
