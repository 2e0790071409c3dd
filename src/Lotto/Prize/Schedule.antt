-- ===== src/Lotto/Prize/Schedule.antt =====
-- When the next lottery is due.
use glow_contracts.Base.{
  ℕ, ◌+◌, ◌*◌, ◌/◌, ◌<◌, ◌≡◌, ◌∙◌, subst, ap, ok, with_ok, with_test, panic, arith, nat_beq,
  Expiration, Duration, at_time, time,
}
use native.Mathlib.Nat.{div-add-mod, mod-lt}
use glow_contracts.Platform.{Platform}
use glow_contracts.Lotto.Types.{Env}
use glow_contracts.Lotto.Prize.{next_time}

abbrev pub second : ℕ
second = 1_000_000_000

passed :
    (now t i r : ℕ)
    → 0 < i
    → r + t / 1_000_000_000 * 1_000_000_000 ≡ now
    → (now < t + i * (1 + r / 1_000_000_000 / i) * 1_000_000_000)
      × (t + i * (1 + r / 1_000_000_000 / i) * 1_000_000_000
          < now + i * 1_000_000_000 + 1_000_000_000)
passed now t i r pos e =
    let q = r / 1_000_000_000 in
    let whole = div-add-mod q i in
    let part = mod-lt q {m = i} pos in
    let distributed : i * (1 + q / i) ≡ i + i * (q / i) = omega arith in
    (omega (arith, whole, part, distributed), omega (arith, whole, part, distributed))

module _ (p : Platform) where
  -- The next time of the lottery, from a time and an interval in seconds, is that time plus a
  -- positive number of intervals, later than the block's, and later by less than an interval and a
  -- second.
  pub next_time_lem :
      (t i : ℕ) (env : Env) (e : Expiration)
      → next_time p (at_time t) (time i) env ≡ ok e
      → (k : ℕ) × (e ≡ at_time (t + i * (1 + k) * 1_000_000_000))
        × (env.block.block_time < t + i * (1 + k) * 1_000_000_000)
        × (t + i * (1 + k) * 1_000_000_000
            < env.block.block_time + i * 1_000_000_000 + 1_000_000_000)
  unfolding next_time
  next_time_lem t i env e h =
      with_ok (p.minus_seconds env.block.block_time (p.seconds t)) _ h λ since e1 h1.
        with_test (nat_beq i 0) panic _ h1 λ nonzero h2.
          with_ok (p.mul_duration (time i) (1 + p.seconds since / i)) _ h2 λ d e3 h3.
            let k = since / 1_000_000_000 / i in
            let started = p.minus_seconds_lem env.block.block_time (p.seconds t) since e1 in
            let due =
              passed env.block.block_time t i since (ground arith)
                (rw (p.seconds_lem t) at started) in
            let waited = p.mul_duration_lem i (1 + p.seconds since / i) d e3 in
            let added = subst (λ (x : Duration). p.add_duration (at_time t) x ≡ ok e) waited h3 in
            (
              k,
              p.add_duration_lem t (i * (1 + p.seconds since / i)) e added
                  ∙ ap (λ (x : ℕ). at_time (t + i * (1 + x / i) * 1_000_000_000))
                      (p.seconds_lem since),
              due.0,
              due.1,
            )
