-- ===== src/Staking/Types.antt =====
-- The types of contracts/staking/src/state.rs and packages/glow_protocol/src/staking.rs.
use glow_contracts.Base.{ℕ, ◌≡◌, ◌↔◌, Bool, true, ◌&&◌, nat_beq, Eq, Option, List, Addr, arith}
use glow_contracts.Dict.{Dict}

-- When a distribution starts and ends, in seconds, and its amount.
abbrev pub Schedule : Type 0
Schedule = ℕ × (ℕ × ℕ)

abbrev pub schedule_beq : Schedule → Schedule → Bool
schedule_beq (a, (b, n)) (c, (d, m)) = nat_beq a c && (nat_beq b d && nat_beq n m)

pub schedule_beq_iff : (x y : Schedule) → (schedule_beq x y ≡ true) ↔ (x ≡ y)
schedule_beq_iff (a, (b, n)) (c, (d, m)) = ground arith

instance abbrev pub schedule_eq : Eq Schedule
schedule_eq = record { beq = schedule_beq; is_equality = schedule_beq_iff }

pub record Config : Type 0 where
  pub owner : Addr
  pub glow_token : Addr
  pub staking_token : Addr
  pub distribution_schedule : List Schedule

pub record OldConfig : Type 0 where
  pub glow_token : Addr
  pub staking_token : Addr
  pub distribution_schedule : List Schedule

pub record State : Type 0 where
  pub last_distributed : ℕ
  pub total_bond_amount : ℕ
  pub global_reward_index : ℕ

pub record StakerInfo : Type 0 where
  pub reward_index : ℕ
  pub bond_amount : ℕ
  pub pending_reward : ℕ

pub record Store : Type 0 where
  pub config : Config
  pub state : State
  pub stakers : Dict Addr StakerInfo

-- `InstantiateMsg` and `MigrateMsg`
pub record InstantiateMsg : Type 0 where
  pub owner : Addr
  pub glow_token : Addr
  pub staking_token : Addr
  pub distribution_schedule : List Schedule

pub record MigrateMsg : Type 0 where
  pub owner : Addr
  pub distribution_schedule : List Schedule

pub data Cw20HookMsg : Type 0 where
  bond : Cw20HookMsg

-- `Cw20ReceiveMsg`, with its message as decoded.
pub record Cw20ReceiveMsg : Type 0 where
  pub sender : Addr
  pub amount : ℕ
  pub msg : Option Cw20HookMsg

pub data ExecuteMsg : Type 0 where
  receive : Cw20ReceiveMsg → ExecuteMsg
  unbond : ℕ → ExecuteMsg
  withdraw : ExecuteMsg
  update_config : Option Addr → Option (List Schedule) → ExecuteMsg
  migrate_staking : Addr → ExecuteMsg

-- `Cw20ExecuteMsg::Transfer` on a token, to a recipient
pub data Msg : Type 0 where
  transfer : Addr → Addr → ℕ → Msg
