-- ===== src/Distributor.antt =====
-- The distributor (contracts/distributor): accounts that may spend GLOW up to a limit, and the rate
-- at which the lotto emits GLOW to its operators and sponsors.
pub mod Contract
pub mod Rates
mod Examples
use glow_contracts.Base.{ℕ, Option, List, Addr}

-- The contract's storage is its configuration.
pub record Config : Type 0 where
  pub owner : Addr
  pub glow_token : Addr
  pub whitelist : List Addr
  pub spend_limit : ℕ
  pub emission_cap : ℕ
  pub emission_floor : ℕ
  pub increment_multiplier : ℕ
  pub decrement_multiplier : ℕ

pub record InstantiateMsg : Type 0 where
  pub owner : Addr
  pub glow_token : Addr
  pub whitelist : List Addr
  pub spend_limit : ℕ
  pub emission_cap : ℕ
  pub emission_floor : ℕ
  pub increment_multiplier : ℕ
  pub decrement_multiplier : ℕ

-- The arguments of `ExecuteMsg::UpdateConfig`.
pub record ConfigUpdate : Type 0 where
  pub owner : Option Addr
  pub spend_limit : Option ℕ
  pub emission_cap : Option ℕ
  pub emission_floor : Option ℕ
  pub increment_multiplier : Option ℕ
  pub decrement_multiplier : Option ℕ

pub data ExecuteMsg : Type 0 where
  update_config : ConfigUpdate → ExecuteMsg
  spend : Addr → ℕ → ExecuteMsg
  add_distributor : Addr → ExecuteMsg
  remove_distributor : Addr → ExecuteMsg

-- `Cw20ExecuteMsg::Transfer` on a token, to a recipient
pub data Msg : Type 0 where
  transfer : Addr → Addr → ℕ → Msg
