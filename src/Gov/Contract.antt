-- ===== src/Gov/Contract.antt =====
-- The entry points of the governance contract and its administration
-- (contracts/gov/src/contract.rs).
pub mod Cases
use glow_contracts.Base.{
  ℕ, Bool, not, Option, none, some, List, [], ◌∷◌, Result, ok, err, std, gov, GovError, ◌>>=◌, ◌>>◌,
  fail_if, or_default, nat_beq, ltb, if◌then◌else◌, Addr, Coin, MessageInfo, Env,
}
use glow_contracts.Platform.{Platform}
use glow_contracts.Gov.Types.{
  Store, State, Config, OldConfig, InstantiateMsg, ConfigUpdate, Cw20HookMsg, Cw20ReceiveMsg,
  ExecuteMsg, Msg, swap,
}
use glow_contracts.Gov.Staking.{stake_voting_tokens, withdraw_voting_tokens}
use glow_contracts.Gov.Polls.{create_poll, end_poll, execute_poll, expire_poll, cast_vote}

module _ (p : Platform) where
  open p use {
    decimal_one, addr_canonicalize, addr_humanize, addr_validate, pair_contract, bank_balance,
    asset_deduct_tax,
  }

  unfoldable pub validate_quorum : ℕ → Result (Unit {0})
  validate_quorum quorum = fail_if (ltb decimal_one quorum) (std "quorum must be 0 to 1")

  unfoldable pub validate_threshold : ℕ → Result (Unit {0})
  validate_threshold threshold =
      fail_if (ltb decimal_one threshold) (std "threshold must be 0 to 1")

  unfoldable pub instantiate : Env → MessageInfo → InstantiateMsg → Result Store
  unfolding validate_quorum validate_threshold
  instantiate env info msg = do
    validate_quorum msg.quorum
    validate_threshold msg.threshold
    owner ← addr_canonicalize info.sender
    contract ← addr_canonicalize env.contract
    let config : Config = record {
      owner = owner;
      glow_token = 0;
      ve_token = 0;
      terraswap_factory = 0;
      quorum = msg.quorum;
      threshold = msg.threshold;
      voting_period = msg.voting_period;
      timelock_period = msg.timelock_period;
      expiration_period = msg.expiration_period;
      proposal_deposit = msg.proposal_deposit;
      snapshot_period = msg.snapshot_period;
    }
    let state : State = record {
      contract_addr = contract;
      poll_count = 0;
      total_share = 0;
      total_deposit = 0;
    }
    let s : Store = record {
      config = config;
      state = state;
      polls = [];
      poll_indexer = [];
      poll_voters = [];
      bank = [];
    }
    ok s

  unfoldable pub register_contracts :
      Store → (glow_token ve_token terraswap_factory : Addr) → Result (Store × List Msg)
  register_contracts s glow_token ve_token terraswap_factory = do
    fail_if (not (nat_beq s.config.glow_token 0)) (gov GovError.unauthorized)
    glow ← addr_canonicalize glow_token
    ve ← addr_canonicalize ve_token
    factory ← addr_canonicalize terraswap_factory
    let config1 : Config = record s.config {
      glow_token = glow;
      ve_token = ve;
      terraswap_factory = factory;
    }
    ok (record s { config = config1 }, [])

  unfoldable pub sweep : Store → Env → ℕ → Result (Store × List Msg)
  sweep s env denom = do
    glow_token ← addr_humanize s.config.glow_token
    factory ← addr_humanize s.config.terraswap_factory
    pair ← pair_contract factory denom glow_token
    balance ← bank_balance env.contract denom
    amount ← asset_deduct_tax denom balance
    ok (s, swap pair (record { denom = denom; coin_amount = amount }) ∷ [])

  -- The address given, or the one that stands.
  unfoldable pub owner_after : Option Addr → Addr → Result Addr
  owner_after none old = ok old
  owner_after (some owner) old = addr_canonicalize owner

  unfoldable pub update_config : Store → MessageInfo → ConfigUpdate → Result (Store × List Msg)
  unfolding owner_after
  update_config s info u = do
    sender ← addr_canonicalize info.sender
    let c = s.config
    fail_if (not (nat_beq c.owner sender)) (gov GovError.unauthorized)
    owner ← owner_after u.owner c.owner
    let config1 : Config = record c {
      owner = owner;
      quorum = or_default c.quorum u.quorum;
      threshold = or_default c.threshold u.threshold;
      voting_period = or_default c.voting_period u.voting_period;
      timelock_period = or_default c.timelock_period u.timelock_period;
      expiration_period = or_default c.expiration_period u.expiration_period;
      proposal_deposit = or_default c.proposal_deposit u.proposal_deposit;
      snapshot_period = or_default c.snapshot_period u.snapshot_period;
    }
    ok (record s { config = config1 }, [])

  unfoldable pub hook : Store → Env → Addr → ℕ → Option Cw20HookMsg → Result (Store × List Msg)
  hook s env sender amount none = err (gov GovError.data_should_be_given)
  hook s env sender amount (some Cw20HookMsg.stake_voting_tokens) = do
    staker ← addr_validate sender
    stake_voting_tokens p s staker amount
  hook s env sender amount (some (Cw20HookMsg.create_poll title description link execute_msgs)) =
      create_poll p s env sender amount title description link execute_msgs

  unfoldable pub receive_cw20 :
      Store → Env → MessageInfo → Cw20ReceiveMsg → Result (Store × List Msg)
  unfolding hook
  receive_cw20 s env info cw20_msg = do
    token ← addr_canonicalize info.sender
    fail_if (not (nat_beq s.config.glow_token token)) (gov GovError.unauthorized)
    hook s env cw20_msg.sender cw20_msg.amount cw20_msg.msg

  unfoldable pub execute : Store → Env → MessageInfo → ExecuteMsg → Result (Store × List Msg)
  unfolding register_contracts sweep update_config receive_cw20
  execute s env info (ExecuteMsg.receive msg) = receive_cw20 s env info msg
  execute s env info (ExecuteMsg.register_contracts glow_token ve_token terraswap_factory) =
      register_contracts s glow_token ve_token terraswap_factory
  execute s env info (ExecuteMsg.sweep denom) = sweep s env denom
  execute s env info (ExecuteMsg.update_config u) = update_config s info u
  execute s env info (ExecuteMsg.withdraw_voting_tokens amount) =
      withdraw_voting_tokens p s info amount
  execute s env info (ExecuteMsg.cast_vote poll_id vote) = cast_vote p s env info poll_id vote
  execute s env info (ExecuteMsg.end_poll poll_id) = end_poll p s env poll_id
  execute s env info (ExecuteMsg.execute_poll poll_id) = execute_poll p s env poll_id
  execute s env info (ExecuteMsg.expire_poll poll_id) = expire_poll p s env poll_id

  unfoldable pub migrate : OldConfig → Store → Addr → Result Store
  migrate old_config s ve_token = do
    ve ← addr_canonicalize ve_token
    let config1 : Config = record {
      owner = old_config.owner;
      glow_token = old_config.glow_token;
      ve_token = ve;
      terraswap_factory = old_config.terraswap_factory;
      quorum = old_config.quorum;
      threshold = old_config.threshold;
      voting_period = old_config.voting_period;
      timelock_period = old_config.timelock_period;
      expiration_period = old_config.expiration_period;
      proposal_deposit = old_config.proposal_deposit;
      snapshot_period = old_config.snapshot_period;
    }
    ok (record s { config = config1 })
