-- ===== src/Staking/Contract.antt =====
-- The handlers of the staking contract (contracts/staking/src/contract.rs).
use glow_contracts.Base.{
  ℕ, Bool, ◌&&◌, not, Option, none, some, List, [], ◌∷◌, Result, ok, err, std, ◌>>=◌, ◌>>◌, fail_if,
  nat_beq, ltb, if◌then◌else◌, Addr, Env, MessageInfo,
}
use glow_contracts.Platform.{Platform}
use glow_contracts.Staking.Types.{
  Store, Config, OldConfig, State, StakerInfo, Schedule, InstantiateMsg, MigrateMsg, Cw20HookMsg,
  Cw20ReceiveMsg, ExecuteMsg, Msg, transfer,
}
use glow_contracts.Staking.Rewards.{
  read_staker_info, store_staker_info, remove_staker_info, compute_reward, compute_staker_reward,
  increase_bond_amount, decrease_bond_amount,
}
use glow_contracts.Staking.Schedules.{valid_schedules, assert_new_schedules, started, settle}

abbrev pub total_distribution_amount : ℕ
total_distribution_amount = 100_000_000_000_000

-- The information of a staker stored, or removed when a test says so.
unfoldable pub keep_staker : Store → Addr → StakerInfo → Bool → Store
unfolding store_staker_info remove_staker_info
keep_staker s owner i gone =
    if gone then remove_staker_info s owner else store_staker_info s owner i

module _ (p : Platform) where
  open p use {add128, sub128, seconds, addr_canonicalize, addr_humanize, addr_validate}

  unfoldable pub instantiate : Env → InstantiateMsg → Result Store
  instantiate env msg = do
    valid ← valid_schedules msg.distribution_schedule
    owner ← addr_canonicalize msg.owner
    glow_token ← addr_canonicalize msg.glow_token
    staking_token ← addr_canonicalize msg.staking_token
    let config : Config = record {
      owner = owner;
      glow_token = glow_token;
      staking_token = staking_token;
      distribution_schedule = msg.distribution_schedule;
    }
    let state : State = record {
      last_distributed = seconds env.block.block_time;
      total_bond_amount = 0;
      global_reward_index = 0;
    }
    let s : Store = record { config = config; state = state; stakers = [] }
    ok s

  unfoldable pub bond : Store → Env → Addr → ℕ → Result (Store × List Msg)
  unfolding read_staker_info store_staker_info increase_bond_amount
  bond s env sender_addr amount = do
    sender ← addr_canonicalize sender_addr
    state1 ← compute_reward p s.config s.state (seconds env.block.block_time)
    info1 ← compute_staker_reward p state1 (read_staker_info s sender)
    (state2, info2) ← increase_bond_amount p state1 info1 amount
    ok (record (store_staker_info s sender info2) { state = state2 }, [])

  unfoldable pub hook :
      Store → Env → MessageInfo → Addr → ℕ → Option Cw20HookMsg → Result (Store × List Msg)
  hook s env info sender amount none = err (std "data should be given")
  hook s env info sender amount (some Cw20HookMsg.bond) = do
    token ← addr_canonicalize info.sender
    fail_if (not (nat_beq s.config.staking_token token)) (std "unauthorized")
    cw20_sender ← addr_validate sender
    bond s env cw20_sender amount

  unfoldable pub receive_cw20 :
      Store → Env → MessageInfo → Cw20ReceiveMsg → Result (Store × List Msg)
  unfolding hook
  receive_cw20 s env info cw20_msg = hook s env info cw20_msg.sender cw20_msg.amount cw20_msg.msg

  unfoldable pub unbond : Store → Env → MessageInfo → ℕ → Result (Store × List Msg)
  unfolding read_staker_info decrease_bond_amount keep_staker
  unbond s env info amount = do
    sender ← addr_canonicalize info.sender
    let i = read_staker_info s sender
    fail_if (ltb i.bond_amount amount) (std "Cannot unbond more than bond amount")
    state1 ← compute_reward p s.config s.state (seconds env.block.block_time)
    info1 ← compute_staker_reward p state1 i
    (state2, info2) ← decrease_bond_amount p state1 info1 amount
    let gone = nat_beq info2.pending_reward 0 && nat_beq info2.bond_amount 0
    token ← addr_humanize s.config.staking_token
    ok (
      record (keep_staker s sender info2 gone) { state = state2 },
      transfer token info.sender amount ∷ [],
    )

  unfoldable pub withdraw : Store → Env → MessageInfo → Result (Store × List Msg)
  unfolding read_staker_info keep_staker
  withdraw s env info = do
    sender ← addr_canonicalize info.sender
    state1 ← compute_reward p s.config s.state (seconds env.block.block_time)
    info1 ← compute_staker_reward p state1 (read_staker_info s sender)
    let amount = info1.pending_reward
    let info2 : StakerInfo = record info1 { pending_reward = 0 }
    token ← addr_humanize s.config.glow_token
    ok (
      record (keep_staker s sender info2 (nat_beq info2.bond_amount 0)) { state = state1 },
      transfer token info.sender amount ∷ [],
    )

  unfoldable pub owner_after : Option Addr → Addr → Result Addr
  owner_after none old = ok old
  owner_after (some owner) old = addr_canonicalize owner

  unfoldable pub schedule_after : Config → State → Option (List Schedule) → Result (List Schedule)
  schedule_after config state none = ok config.distribution_schedule
  schedule_after config state (some new) = do
    checked ← assert_new_schedules config state new
    ok new

  unfoldable pub update_config :
      Store → MessageInfo → Option Addr → Option (List Schedule) → Result (Store × List Msg)
  unfolding owner_after schedule_after
  update_config s info owner distribution_schedule = do
    sender ← addr_canonicalize info.sender
    fail_if (not (nat_beq sender s.config.owner)) (std "Unauthorized")
    owner1 ← owner_after owner s.config.owner
    schedule1 ← schedule_after s.config s.state distribution_schedule
    let config1 : Config = record s.config { owner = owner1; distribution_schedule = schedule1 }
    ok (record s { config = config1 }, [])

  unfoldable pub migrate_staking : Store → Env → MessageInfo → Addr → Result (Store × List Msg)
  migrate_staking s env info new_staking_contract = do
    glow_token ← addr_humanize s.config.glow_token
    sender ← addr_canonicalize info.sender
    fail_if (not (nat_beq s.config.owner sender)) (std "Unauthorized")
    let block_time = seconds env.block.block_time
    state1 ← compute_reward p s.config s.state block_time
    (schedule, distributed) ←
        settle p block_time 0 (started p block_time s.config.distribution_schedule)
    remaining_glow ← sub128 total_distribution_amount distributed
    let config1 : Config = record s.config { distribution_schedule = schedule }
    ok (
      record s { config = config1; state = state1 },
      transfer glow_token new_staking_contract remaining_glow ∷ [],
    )

  unfoldable pub execute : Store → Env → MessageInfo → ExecuteMsg → Result (Store × List Msg)
  unfolding receive_cw20
  execute s env info (ExecuteMsg.receive msg) = receive_cw20 s env info msg
  execute s env info (ExecuteMsg.unbond amount) = unbond s env info amount
  execute s env info ExecuteMsg.withdraw = withdraw s env info
  execute s env info (ExecuteMsg.update_config owner distribution_schedule) =
      update_config s info owner distribution_schedule
  execute s env info (ExecuteMsg.migrate_staking new_staking_contract) =
      migrate_staking s env info new_staking_contract

  unfoldable pub migrate : OldConfig → Store → MigrateMsg → Result Store
  migrate old_config s msg = do
    valid ← valid_schedules msg.distribution_schedule
    owner ← addr_canonicalize msg.owner
    let config1 : Config = record {
      owner = owner;
      glow_token = old_config.glow_token;
      staking_token = old_config.staking_token;
      distribution_schedule = msg.distribution_schedule;
    }
    ok (record s { config = config1 })
