-- ===== src/Base/Chain.antt =====
-- The values of `cosmwasm_std` that every handler is given. Addresses and denominations are
-- numbers, and the number 0 is the empty address.
use Prim.Native.Nat.{ℕ}
use mathlib.Core.List.{List}
use glow_contracts.Base.Time.{Block}

abbrev pub Addr : Type 0
Addr = ℕ

pub record Coin : Type 0 where
  pub denom : ℕ
  pub coin_amount : ℕ

pub record MessageInfo : Type 0 where
  pub sender : Addr
  pub funds : List Coin

-- `Env`: the block, and the address of the contract itself.
pub record Env : Type 0 where
  pub block : Block
  pub contract : Addr
