-- ===== src/Lotto/Examples/Scenario.antt =====
-- The state and the calls of the examples: prices in millionths, the accounts 1 to 9.
use glow_contracts.Base.{ℕ, List, [], ◌∷◌, false, Result, ok, err, time, at_time}
use glow_contracts.Lotto.Types.{
  Config, State, Pool, Store, Env, MessageInfo, Msg, RewardEmissionsIndex,
}
use glow_contracts.Lotto.Storage.{zeros}

abbrev pub config : Config
config = record {
  owner = 1;
  a_terra_contract = 11;
  ve_contract = 12;
  gov_contract = 13;
  community_contract = 14;
  distributor_contract = 15;
  anchor_contract = 16;
  oracle_contract = 17;
  stable_denom = 1;
  lottery_interval = time 604_800;
  epoch_interval = time 10_800;
  block_time = time 3_600;
  round_delta = 10;
  ticket_price = 10_000_000;
  max_holders = 3;
  prize_distribution =
      0 ∷ 0 ∷ 50_000_000_000_000_000 ∷ 50_000_000_000_000_000 ∷ 100_000_000_000_000_000
      ∷ 300_000_000_000_000_000 ∷ 500_000_000_000_000_000 ∷ [];
  target_award = 0;
  reserve_factor = 50_000_000_000_000_000;
  split_factor = 750_000_000_000_000_000;
  instant_withdrawal_fee = 100_000_000_000_000_000;
  unbonding_period = time 604_800;
  max_tickets_per_depositor = 100;
  glow_prize_buckets = zeros;
  paused = false;
  lotto_winner_boost_config = record {
    base_multiplier = 400_000_000_000_000_000;
    max_multiplier = 1_000_000_000_000_000_000;
    total_voting_power_weight = 1_500_000_000_000_000_000;
  };
}

abbrev emissions : RewardEmissionsIndex
emissions = record { last_reward_updated = 100; global_reward_index = 0; glow_emission_rate = 0 }

abbrev pub state : State
state = record {
  total_tickets = 0;
  total_reserve = 0;
  prize_buckets = zeros;
  current_lottery = 0;
  next_lottery_time = at_time 700_000_000_000_000;
  next_lottery_exec_time = at_time 0;
  next_epoch = at_time 0;
  operator_reward_emission_index = emissions;
  sponsor_reward_emission_index = emissions;
  last_lottery_execution_aust_exchange_rate = 1_000_000_000_000_000_000;
}

abbrev pub pool : Pool
pool = record {
  total_user_aust = 0;
  total_user_shares = 0;
  total_sponsor_lottery_deposits = 0;
  total_operator_shares = 0;
}

abbrev pub genesis : Store
genesis = record {
  config = config;
  state = state;
  pool = pool;
  tickets = [];
  depositor_data = [];
  depositor_stats = [];
  sponsors = [];
  operators = [];
  lotteries = [];
  prizes = [];
  old_depositors = [];
}

abbrev pub env : Env
env = record { block = record { block_height = 100; block_time = 5 }; contract = 9 }

abbrev pub next_env : Env
next_env = record {
  block = record { block_height = 101; block_time = 6_000_000_000 };
  contract = 9;
}

-- An account sends an amount of the stable coin.
abbrev pub sends : ℕ → ℕ → MessageInfo
sends who amount = record { sender = who; funds = record { denom = 1; coin_amount = amount } ∷ [] }

abbrev pub state_after : Result (Store × List Msg) → Store
state_after (ok r) = r.0
state_after (err e) = genesis

abbrev pub msgs_after : Result (Store × List Msg) → List Msg
msgs_after (ok r) = r.1
msgs_after (err e) = []
