-- ===== src/Gov/Types.antt =====
-- The types of contracts/gov/src/{state,error}.rs and of packages/glow_protocol/src/gov.rs. A
-- string is the list of its bytes, a `Binary` a number, a canonical address a number.
use glow_contracts.Base.{ℕ, ◌≡◌, ◌↔◌, Bool, true, false, ◌&&◌, Option, List, nat_beq, Eq, arith}
use glow_contracts.Base.{Addr, Coin}
use glow_contracts.Dict.{Dict}

pub data PollStatus : Type 0 where
  in_progress passed rejected executed expired : PollStatus

pub data VoteOption : Type 0 where
  yes no : VoteOption

pub record VoterInfo : Type 0 where
  pub vote : VoteOption
  pub balance : ℕ

pub record PollExecuteMsg : Type 0 where
  pub order : ℕ
  pub contract : Addr
  pub msg : ℕ

pub record ExecuteData : Type 0 where
  pub order : ℕ
  pub contract : Addr
  pub msg : ℕ

pub record Poll : Type 0 where
  pub id : ℕ
  pub creator : Addr
  pub status : PollStatus
  pub yes_votes : ℕ
  pub no_votes : ℕ
  pub start_time : ℕ
  pub end_height : ℕ
  pub title : List ℕ
  pub description : List ℕ
  pub link : Option (List ℕ)
  pub execute_data : Option (List ExecuteData)
  pub deposit_amount : ℕ
  pub total_balance_at_end_poll : Option ℕ
  pub staked_amount : Option ℕ

pub record TokenManager : Type 0 where
  pub share : ℕ
  pub locked_balance : List (ℕ × VoterInfo)

pub record Config : Type 0 where
  pub owner : Addr
  pub glow_token : Addr
  pub ve_token : Addr
  pub terraswap_factory : Addr
  pub quorum : ℕ
  pub threshold : ℕ
  pub voting_period : ℕ
  pub timelock_period : ℕ
  pub expiration_period : ℕ
  pub proposal_deposit : ℕ
  pub snapshot_period : ℕ

-- The configuration before `migrate`.
pub record OldConfig : Type 0 where
  pub owner : Addr
  pub glow_token : Addr
  pub terraswap_factory : Addr
  pub quorum : ℕ
  pub threshold : ℕ
  pub voting_period : ℕ
  pub timelock_period : ℕ
  pub expiration_period : ℕ
  pub proposal_deposit : ℕ
  pub snapshot_period : ℕ

pub record State : Type 0 where
  pub contract_addr : Addr
  pub poll_count : ℕ
  pub total_share : ℕ
  pub total_deposit : ℕ

-- The contract's storage: `poll_indexer` has a key for each status and id, `poll_voters` for each
-- id and voter.
pub record Store : Type 0 where
  pub config : Config
  pub state : State
  pub polls : Dict ℕ Poll
  pub poll_indexer : Dict (PollStatus × ℕ) Bool
  pub poll_voters : Dict (ℕ × Addr) VoterInfo
  pub bank : Dict Addr TokenManager

pub record InstantiateMsg : Type 0 where
  pub quorum : ℕ
  pub threshold : ℕ
  pub voting_period : ℕ
  pub timelock_period : ℕ
  pub expiration_period : ℕ
  pub proposal_deposit : ℕ
  pub snapshot_period : ℕ

-- The fields that `UpdateConfig` may set.
pub record ConfigUpdate : Type 0 where
  pub owner : Option Addr
  pub quorum : Option ℕ
  pub threshold : Option ℕ
  pub voting_period : Option ℕ
  pub timelock_period : Option ℕ
  pub expiration_period : Option ℕ
  pub proposal_deposit : Option ℕ
  pub snapshot_period : Option ℕ

pub data Cw20HookMsg : Type 0 where
  stake_voting_tokens : Cw20HookMsg
  create_poll :
      (title description : List ℕ) → Option (List ℕ) → Option (List PollExecuteMsg) → Cw20HookMsg

-- `Cw20ReceiveMsg`, with its message as decoded, or nothing where it is none of the hooks.
pub record Cw20ReceiveMsg : Type 0 where
  pub sender : Addr
  pub amount : ℕ
  pub msg : Option Cw20HookMsg

pub data ExecuteMsg : Type 0 where
  receive : Cw20ReceiveMsg → ExecuteMsg
  register_contracts : (glow_token ve_token terraswap_factory : Addr) → ExecuteMsg
  sweep : ℕ → ExecuteMsg
  update_config : ConfigUpdate → ExecuteMsg
  cast_vote : ℕ → VoteOption → ExecuteMsg
  withdraw_voting_tokens : Option ℕ → ExecuteMsg
  end_poll : ℕ → ExecuteMsg
  execute_poll : ℕ → ExecuteMsg
  expire_poll : ℕ → ExecuteMsg

-- The messages that a handler returns.
pub data Msg : Type 0 where
  -- `Cw20ExecuteMsg::Transfer` on a token, to a recipient
  transfer : Addr → Addr → ℕ → Msg
  -- `TerraswapExecuteMsg::Swap` on a pair, of a coin that it is sent
  swap : Addr → Coin → Msg
  -- `WasmMsg::Execute` of a contract, without funds
  wasm_execute : Addr → ℕ → Msg

abbrev pub status_beq : PollStatus → PollStatus → Bool
status_beq in_progress in_progress = true
status_beq passed passed = true
status_beq rejected rejected = true
status_beq executed executed = true
status_beq expired expired = true
status_beq _ _ = false

pub status_beq_iff : (a b : PollStatus) → (status_beq a b ≡ true) ↔ (a ≡ b)
status_beq_iff a b = ground arith

abbrev pub index_beq : PollStatus × ℕ → PollStatus × ℕ → Bool
index_beq (a, i) (b, j) = status_beq a b && nat_beq i j

pub index_beq_iff : (p q : PollStatus × ℕ) → (index_beq p q ≡ true) ↔ (p ≡ q)
index_beq_iff (a, i) (b, j) = ground arith

instance abbrev pub index_eq : Eq (PollStatus × ℕ)
index_eq = record { beq = index_beq; is_equality = index_beq_iff }
