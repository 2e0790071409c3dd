-- ===== src/Lotto/Types.antt =====
-- The types of contracts/lotto/src/state.rs and of packages/glow_protocol/src/lotto.rs. Addresses
-- and denominations are numbers, an array is a list, a ticket is the list of its characters.
use glow_contracts.Base.{ℕ, Bool, List, Duration, Expiration}
pub use glow_contracts.Base.{Addr, Coin, MessageInfo, Env}
use glow_contracts.Dict.{Dict}

abbrev pub ticket_length : ℕ
ticket_length = 6

abbrev pub num_prize_buckets : ℕ
num_prize_buckets = 7

-- `Addr::unchecked("")`
abbrev pub no_addr : Addr
no_addr = 0

abbrev pub Ticket : Type 0
Ticket = List ℕ

pub record BoostConfig : Type 0 where
  pub base_multiplier : ℕ
  pub max_multiplier : ℕ
  pub total_voting_power_weight : ℕ

pub record RewardEmissionsIndex : Type 0 where
  pub last_reward_updated : ℕ
  pub global_reward_index : ℕ
  pub glow_emission_rate : ℕ

pub record Claim : Type 0 where
  pub amount : ℕ
  pub release_at : Expiration

pub record Config : Type 0 where
  pub owner : Addr
  pub a_terra_contract : Addr
  pub ve_contract : Addr
  pub gov_contract : Addr
  pub community_contract : Addr
  pub distributor_contract : Addr
  pub anchor_contract : Addr
  pub oracle_contract : Addr
  pub stable_denom : ℕ
  pub lottery_interval : Duration
  pub epoch_interval : Duration
  pub block_time : Duration
  pub round_delta : ℕ
  pub ticket_price : ℕ
  pub max_holders : ℕ
  pub prize_distribution : List ℕ
  pub target_award : ℕ
  pub reserve_factor : ℕ
  pub split_factor : ℕ
  pub instant_withdrawal_fee : ℕ
  pub unbonding_period : Duration
  pub max_tickets_per_depositor : ℕ
  pub glow_prize_buckets : List ℕ
  pub paused : Bool
  pub lotto_winner_boost_config : BoostConfig

pub record State : Type 0 where
  pub total_tickets : ℕ
  pub total_reserve : ℕ
  pub prize_buckets : List ℕ
  pub current_lottery : ℕ
  pub next_lottery_time : Expiration
  pub next_lottery_exec_time : Expiration
  pub next_epoch : Expiration
  pub operator_reward_emission_index : RewardEmissionsIndex
  pub sponsor_reward_emission_index : RewardEmissionsIndex
  pub last_lottery_execution_aust_exchange_rate : ℕ

pub record Pool : Type 0 where
  pub total_user_aust : ℕ
  pub total_user_shares : ℕ
  pub total_sponsor_lottery_deposits : ℕ
  pub total_operator_shares : ℕ

pub record DepositorStatsInfo : Type 0 where
  pub shares : ℕ
  pub num_tickets : ℕ
  pub operator_addr : Addr

pub record DepositorData : Type 0 where
  pub vec_binary_tickets : List (List ℕ)
  pub unbonding_info : List Claim

pub record DepositorInfo : Type 0 where
  pub shares : ℕ
  pub tickets : List Ticket
  pub unbonding_info : List Claim
  pub operator_addr : Addr

pub record SponsorInfo : Type 0 where
  pub lottery_deposit : ℕ
  pub pending_rewards : ℕ
  pub reward_index : ℕ

pub record OperatorInfo : Type 0 where
  pub shares : ℕ
  pub pending_rewards : ℕ
  pub reward_index : ℕ

pub record LotteryInfo : Type 0 where
  pub rand_round : ℕ
  pub sequence : Ticket
  pub awarded : Bool
  pub timestamp : ℕ
  pub block_height : ℕ
  pub prize_buckets : List ℕ
  pub number_winners : List ℕ
  pub page : Ticket
  pub glow_prize_buckets : List ℕ
  pub total_user_shares : ℕ

pub record PrizeInfo : Type 0 where
  pub claimed : Bool
  pub matches : List ℕ

-- The contract's storage. `tickets` is in the order of its keys; an entry of `depositor_stats`
-- holds the values that were written with their heights, newest first.
pub record Store : Type 0 where
  pub config : Config
  pub state : State
  pub pool : Pool
  pub tickets : Dict Ticket (List Addr)
  pub depositor_data : Dict Addr DepositorData
  pub depositor_stats : Dict Addr (List (ℕ × DepositorStatsInfo))
  pub sponsors : Dict Addr SponsorInfo
  pub operators : Dict Addr OperatorInfo
  pub lotteries : Dict ℕ LotteryInfo
  pub prizes : Dict (ℕ × ℕ) PrizeInfo
  -- the bucket of the depositors that are still to be migrated
  pub old_depositors : List Addr

-- The messages that a handler returns.
pub data Msg : Type 0 where
  -- `AnchorMsg::DepositStable`, to the contract, with funds
  deposit_stable : Addr → Coin → Msg
  -- `Cw20ExecuteMsg::Send` on a token, to a contract, with `RedeemStable`
  redeem_stable : Addr → Addr → ℕ → Msg
  -- `BankMsg::Send`
  bank_send : Addr → Coin → Msg
  -- `FaucetExecuteMsg::Spend` of the distributor: to a recipient, an amount
  spend : Addr → Addr → ℕ → Msg
