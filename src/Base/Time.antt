-- ===== src/Base/Time.antt =====
-- The values of `cw0::Duration` and `cw0::Expiration`, and the block that a handler is given.
-- A timestamp is its number of nanoseconds.
use Prim.Native.Nat.{ℕ}

pub data Duration : Type 0 where
  height : ℕ → Duration
  time : ℕ → Duration

pub data Expiration : Type 0 where
  at_height : ℕ → Expiration
  at_time : ℕ → Expiration
  never : Expiration

-- `cosmwasm_std::BlockInfo`
pub record Block : Type 0 where
  pub block_height : ℕ
  pub block_time : ℕ
