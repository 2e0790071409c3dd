-- ===== src/Airdrop.antt =====
-- The airdrop (contracts/airdrop): stages, each a Merkle root of the claims and a time until which
-- they may be made.
pub mod Contract
pub mod Calls
pub mod Runs
mod Examples
use glow_contracts.Base.{ℕ, Bool, List, Option, Addr}
use glow_contracts.Dict.{Dict}

pub record Config : Type 0 where
  pub owner : Addr
  pub glow_token : Addr

-- The contract's storage: a root is a text, a claim is recorded by account and stage.
pub record Store : Type 0 where
  pub config : Config
  pub latest_stage : ℕ
  pub merkle_roots : Dict ℕ (List ℕ)
  pub claimed : Dict (Addr × ℕ) Bool
  pub expiries : Dict ℕ ℕ

pub record InstantiateMsg : Type 0 where
  pub owner : Addr
  pub glow_token : Addr

pub data ExecuteMsg : Type 0 where
  update_config : Option Addr → ExecuteMsg
  withdraw_expired_tokens : Addr → ExecuteMsg
  register_merkle_root : List ℕ → ℕ → ExecuteMsg
  claim : ℕ → ℕ → List (List ℕ) → ExecuteMsg

-- `Cw20ExecuteMsg::Transfer` on a token, to a recipient
pub data Msg : Type 0 where
  transfer : Addr → Addr → ℕ → Msg
