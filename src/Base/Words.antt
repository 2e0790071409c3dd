-- ===== src/Base/Words.antt =====
-- Arithmetic of the unsigned machine integers: the crates are built with overflow checks.
use Prim.Native.Nat.{ℕ, ◌^◌, ◌+◌, ◌-◌, ◌/◌, ◌<◌, zero, suc}
use mathlib.Core.Path.{◌≡◌}
use native.Mathlib.Omega.{arith}
use glow_contracts.Base.Outcome.{Result, ok, err, panic}
use glow_contracts.Base.Tests.{ltb, if◌then◌else◌}

abbrev pub checked : ℕ → ℕ → Result ℕ
checked bits n = if ltb n (2 ^ bits) then ok n else err panic

-- `a - b`, which panics where it would be negative.
abbrev pub minus : ℕ → ℕ → Result ℕ
minus a b = if ltb a b then err panic else ok (a - b)

-- `a / b`, which panics when `b` is 0.
abbrev pub divided : ℕ → ℕ → Result ℕ
divided a zero = err panic
divided a (suc b) = ok (a / suc b)

pub checked-eq-ok : (bits n : ℕ) {c : ℕ} → checked bits n ≡ ok c → c ≡ n
checked-eq-ok bits n h = ground arith

pub minus-eq-ok : (a b : ℕ) {c : ℕ} → minus a b ≡ ok c → c + b ≡ a
minus-eq-ok a b h = ground arith

pub checked_ok : (bits n : ℕ) → n < 2 ^ bits → checked bits n ≡ ok n
checked_ok bits n h = ground arith
