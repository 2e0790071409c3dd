-- ===== src/Vesting/Claims.antt =====
-- What is left of the schedules, and how a claim reduces it.
use glow_contracts.Base.{
  ℕ, ◌+◌, ◌-◌, ◌*◌, ◌≤◌, ◌≡◌, min, max, ap, ◌∙◌, ok, err, Result, List, [], ◌∷◌, ◌||◌, ltb, leb,
  false, arith, with_ok, with_test, ok-injective, Bool-cases, Result-cases, inl, inr, minus,
  minus-eq-ok,
}
use native.Mathlib.Nat.{mul-le-mul_left}
use glow_contracts.Platform.{Platform}
use glow_contracts.Vesting.{Schedule}
use glow_contracts.Vesting.Contract.{released, sum_released, assert_vesting_schedules}

abbrev pub or_zero : Result ℕ → ℕ
or_zero (ok n) = n
or_zero (err e) = 0

-- The amount of the schedules.
abbrev pub amount_of : List Schedule → ℕ
amount_of [] = 0
amount_of ((start, (end, amount)) ∷ l) = amount + amount_of l

-- No schedule of the list is claimed for a time past the latest block.
abbrev pub Timely : ℕ → ℕ → List Schedule → Type 0
Timely now last [] = Unit {0}
Timely now last ((start, (end, amount)) ∷ l) = (last ≤ max start now) × Timely now last l

-- A claim leaves the schedules as timely as the time is late.
pub Timely-later :
    (last now then : ℕ) (l : List Schedule) → now ≤ then → Timely now last l → Timely then last l
Timely-later last now then [] le h = tt
Timely-later last now then ((start, (end, amount)) ∷ l) le (h, k) =
    (omega arith, Timely-later last now then l le k)

pub Timely-now : (now : ℕ) (l : List Schedule) → Timely now now l
Timely-now now [] = tt
Timely-now now ((start, (end, amount)) ∷ l) = (omega arith, Timely-now now l)

module _ (p : Platform) where
  -- What a schedule releases per second, and what it has left to release, in decimal fractions.
  abbrev rate : Schedule → ℕ
  rate (start, (end, amount)) = or_zero (p.decimal_from_ratio amount (end - start))

  abbrev pub left_slot : ℕ → Schedule → ℕ
  left_slot last (start, (end, amount)) = rate (start, (end, amount)) * (end - max start last)

  abbrev pub left : ℕ → List Schedule → ℕ
  left last [] = 0
  left last (s ∷ l) = left_slot last s + left last l

  -- What is left falls with the time.
  left_slot-decreases :
      (last now : ℕ) (s : Schedule) → last ≤ max s.0 now → left_slot now s ≤ left_slot last s
  left_slot-decreases last now (start, (end, amount)) timely =
      mul-le-mul_left (rate (start, (end, amount))) (omega arith)

  rate_lem :
      (start end amount period r : ℕ)
      → minus end start ≡ ok period
      → p.decimal_from_ratio amount period ≡ ok r
      → rate (start, (end, amount)) ≡ r
  rate_lem start end amount period r e1 e2 =
      ap (λ n. or_zero (p.decimal_from_ratio amount n)) (omega (arith, minus-eq-ok end start e1))
      ∙ ap or_zero e2

  -- The time that has passed and the time that is left.
  times :
      (last now start end passed : ℕ)
      → ltb now start || ltb end last ≡ false
      → minus (min end now) (max start last) ≡ ok passed
      → passed + (end - max start now) ≡ end - max start last
  times last now start end passed busy e =
      ground (arith, minus-eq-ok (min end now) (max start last) e)

  -- A schedule releases no more than what it then has less.
  released_lem :
      (last now : ℕ) (s : Schedule) (c : ℕ)
      → released p last now s ≡ ok c
      → last ≤ max s.0 now
      → c * p.decimal_one + left_slot now s ≤ left_slot last s
  unfolding released
  released_lem last now (start, (end, amount)) c h timely =
      elim (Bool-cases (ltb now start || ltb end last)) [
        | inl idle ↦ omega (
          arith,
          left_slot-decreases last now (start, (end, amount)) timely,
          ap (λ n. n * p.decimal_one) (ok-injective (rw idle at h)),
        )
        | inr busy ↦ with_ok (minus (min end now) (max start last)) _ (rw busy at h) λ passed e1 r1.
            with_ok (minus end start) _ r1 λ period e2 r2.
              with_ok (p.decimal_from_ratio amount period) _ r2 λ r e3 r3. omega (
                arith,
                p.mul_decimal_lem passed r c r3,
                ap (λ n. n * (end - max start now)) (rate_lem start end amount period r e2 e3),
                ap (λ n. n * (end - max start last)) (rate_lem start end amount period r e2 e3),
                ap (λ n. r * n) (times last now start end passed busy e1),
              )
      ]

  -- A claim of several schedules.
  pub sum_released_lem :
      (last now sum : ℕ) (l : List Schedule) (c : ℕ)
      → sum_released p last now sum l ≡ ok c
      → Timely now last l
      → c * p.decimal_one + left now l ≤ sum * p.decimal_one + left last l
  unfolding sum_released
  sum_released_lem last now sum [] c h timely =
      omega (arith, ap (λ n. n * p.decimal_one) (ok-injective h))
  sum_released_lem last now sum ((start, (end, amount)) ∷ l) c h (first, timely) =
      with_ok (released p last now (start, (end, amount))) _ h λ n e1 r1.
        with_ok (p.add128 sum n) _ r1 λ sum1 e2 r2. omega (
          arith,
          released_lem last now (start, (end, amount)) n e1 first,
          sum_released_lem last now sum1 l c r2 timely,
          ap (λ k. k * p.decimal_one) (p.add128_lem sum n sum1 e2),
        )

  left_slot-amount :
      (genesis start end amount : ℕ)
      → left_slot genesis (start, (end, amount)) ≤ amount * p.decimal_one
  left_slot-amount genesis start end amount =
      elim (Result-cases (p.decimal_from_ratio amount (end - start))) [
        | inl (e, failed) ↦ rw failed (omega arith)
        | inr (r, e) ↦
            let shorter : end - max start genesis ≤ end - start = omega arith in
            rw e omega
              (arith, p.decimal_from_ratio_lem amount (end - start) r e, mul-le-mul_left r shorter)
      ]

  -- Schedules have no more left than their amount.
  pub left-amount_of :
      (genesis now : ℕ) (l : List Schedule)
      → assert_vesting_schedules l genesis ≡ ok tt
      → (left genesis l ≤ amount_of l * p.decimal_one) × Timely now genesis l
  unfolding assert_vesting_schedules
  left-amount_of genesis now [] h = (omega arith, tt)
  left-amount_of genesis now ((start, (end, amount)) ∷ l) h =
      with_test (leb end start) _ _ h λ long r1. with_test (ltb start genesis) _ _ r1 λ after r2.
        let (le, timely) = left-amount_of genesis now l r2 in
        (omega (arith, le, left_slot-amount genesis start end amount), (ground arith, timely))
