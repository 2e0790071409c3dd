-- ===== src/Vesting.antt =====
-- Vesting (contracts/vesting): accounts with schedules, each an amount that is released evenly from
-- one time to another.
pub mod Contract
pub mod Claims
pub mod Runs
mod Examples
use glow_contracts.Base.{ℕ, Option, List, Addr}
use glow_contracts.Dict.{Dict}

-- When a schedule starts and ends, in seconds, and its amount.
abbrev pub Schedule : Type 0
Schedule = ℕ × (ℕ × ℕ)

pub record Config : Type 0 where
  pub owner : Addr
  pub glow_token : Addr
  pub genesis_time : ℕ

pub record VestingInfo : Type 0 where
  pub schedules : List Schedule
  pub last_claim_time : ℕ

pub record VestingAccount : Type 0 where
  pub address : Addr
  pub schedules : List Schedule

pub record Store : Type 0 where
  pub config : Config
  pub vesting_infos : Dict Addr VestingInfo

pub record InstantiateMsg : Type 0 where
  pub owner : Addr
  pub glow_token : Addr
  pub genesis_time : ℕ

pub data ExecuteMsg : Type 0 where
  update_config : Option Addr → Option Addr → Option ℕ → ExecuteMsg
  register_vesting_accounts : List VestingAccount → ExecuteMsg
  claim : ExecuteMsg

-- `Cw20ExecuteMsg::Transfer` on a token, to a recipient
pub data Msg : Type 0 where
  transfer : Addr → Addr → ℕ → Msg
