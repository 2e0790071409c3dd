-- ===== src/Lotto/Rewards/Laws.antt =====
-- Updates of a reward index, and a second one in the same block (helpers.rs).
use glow_contracts.Base.{
  ℕ, ◌+◌, ◌-◌, ◌*◌, ◌≤◌, ◌<◌, ◌≡◌, ◌∙◌, refl, sym, ap, subst, ok, arith, with_ok, ok-injective,
  Bool-cases, inl, inr, nat_beq, leb, ◌||◌,
}
use native.Mathlib.Nat.{le_of_mul-le-mul_right, lt_of_mul-lt-mul_right}
use glow_contracts.Platform.{Platform}
use glow_contracts.Lotto.Types.{RewardEmissionsIndex}
use glow_contracts.Lotto.Rewards.{grown_index, compute_global_reward}

module _ (p : Platform) where
  -- The growth of an index shares out what is accrued, rounded down by less than the spread.
  abbrev Shares : ℕ → ℕ → ℕ → ℕ → ℕ → Type 0
  Shares index index' accrued spread growth =
      (index' ≡ index + growth)
      × (spread ≡ 0 → growth ≡ 0)
      × (0 < spread → (growth * spread ≤ accrued) × (accrued < growth * spread + spread))

  quotient :
      (c a s one : ℕ)
      → 0 < one
      → (c * (s * one) ≤ a * one) × (a * one < c * (s * one) + s * one)
      → (c * s ≤ a) × (a < c * s + s)
  quotient c a s one pos (low, high) = (
    le_of_mul-le-mul_right {m = c * s} {n = a} {k = one} (omega (arith, low)) pos,
    lt_of_mul-lt-mul_right one {m = a} {n = c * s + s} (omega (arith, high)),
  )

  product :
      (c a b one : ℕ)
      → 0 < one
      → (c * one ≤ a * one * b) × (a * one * b < c * one + one)
      → c ≡ a * b
  product c a b one pos (low, high) =
      let le : c ≤ a * b = le_of_mul-le-mul_right {k = one} (omega (arith, low)) pos in
      let lt : a * b < c + 1 =
        lt_of_mul-lt-mul_right one {m = a * b} {n = c + 1} (omega (arith, high)) in
      omega (arith, le, lt)

  grown_index-Shares : (i a s j : ℕ) → grown_index p i a s ≡ ok j → (g : ℕ) × Shares i j a s g
  unfolding grown_index
  grown_index-Shares i a s j h = elim (Bool-cases (nat_beq a 0 || nat_beq s 0)) [
    | inl idle ↦ (0, (ground (arith, ok-injective (rw idle at h)), λ z. refl, λ pos. ground arith))
    | inr busy ↦ with_ok (p.dec_from_uint s) _ (rw busy at h) λ d e1 r1.
        with_ok (p.dec_div a d) _ r1 λ g e2 r2.
          let e : d ≡ s * p.one = p.dec_from_uint_lem s d e1 in
          (
            g,
            (
              p.dec_add_lem i g j r2,
              λ z. ground arith,
              λ pos.
                  quotient g a s p.one p.one_pos
                    (p.dec_div_lem a (s * p.one) g (ap (λ n. p.dec_div a n) (sym e) ∙ e2)),
            ),
          )
  ]

  -- What an update of a reward index at a height has done.
  pub record Grown (r r' : RewardEmissionsIndex) (spread height : ℕ) : Type 0 where
    pub late : height ≤ r.last_reward_updated → r' ≡ r
    pub moved : r.last_reward_updated < height → r'.last_reward_updated ≡ height
    pub rate : r'.glow_emission_rate ≡ r.glow_emission_rate
    pub growth : ℕ
    pub index : r'.global_reward_index ≡ r.global_reward_index + growth
    pub idle : spread ≡ 0 → growth ≡ 0
    pub shared :
        r.last_reward_updated < height
        → 0 < spread
        → (growth * spread ≤ (height - r.last_reward_updated) * r.glow_emission_rate)
          × ((height - r.last_reward_updated) * r.glow_emission_rate < growth * spread + spread)

  -- An update of a global reward index that succeeds keeps the rate; it changes nothing if the
  -- height is not later than the index's; otherwise it moves it to the height, and the growth of
  -- the index, times what it is spread over, is at most the blocks passed times the rate, and more
  -- than that less one spread. If it is spread over nothing, the index stays.
  pub compute_global_reward_grows :
      (r r' : RewardEmissionsIndex) (spread height : ℕ)
      → compute_global_reward p r spread height ≡ ok r'
      → Grown r r' spread height
  unfolding compute_global_reward
  compute_global_reward_grows r r' spread height h =
      elim (Bool-cases (leb height r.last_reward_updated)) [
        | inl done ↦
            subst (λ (x : RewardEmissionsIndex). Grown r x spread height)
              (ok-injective (rw done at h))
              (record {
                late = λ le. refl;
                moved = λ lt. ground arith;
                rate = refl;
                growth = 0;
                index = omega arith;
                idle = λ z. refl;
                shared = λ lt pos. ground arith;
              })
        | inr due ↦
            let elapsed = height - r.last_reward_updated in
            with_ok (p.dec_from_uint elapsed) _ (rw due at h) λ blocks e1 r1.
              with_ok (p.dec_mul blocks r.glow_emission_rate) _ r1 λ accrued e2 r2.
                with_ok (grown_index p r.global_reward_index accrued spread) _ r2 λ index e3 r3.
                  let e : blocks ≡ elapsed * p.one = p.dec_from_uint_lem elapsed blocks e1 in
                  let earned : accrued ≡ elapsed * r.glow_emission_rate =
                    product accrued elapsed r.glow_emission_rate p.one p.one_pos (
                      p.dec_mul_lem (elapsed * p.one) r.glow_emission_rate accrued
                        (ap (λ n. p.dec_mul n r.glow_emission_rate) (sym e) ∙ e2)) in
                  let (g, (sum, zero_spread, bounds)) =
                    grown_index-Shares r.global_reward_index accrued spread index e3 in
                  subst (λ (x : RewardEmissionsIndex). Grown r x spread height) (ok-injective r3)
                    (record {
                      late = λ le. ground arith;
                      moved = λ lt. refl;
                      rate = refl;
                      growth = g;
                      index = sum;
                      idle = zero_spread;
                      shared = λ lt pos.
                          subst (λ n. (g * spread ≤ n) × (n < g * spread + spread)) earned
                            (bounds pos);
                    })
      ]

  -- After an update of a global reward index, a second one at the same height changes nothing,
  -- whatever it is spread over.
  pub compute_global_reward_again :
      (r r' : RewardEmissionsIndex) (spread spread' height : ℕ)
      → compute_global_reward p r spread height ≡ ok r'
      → compute_global_reward p r' spread' height ≡ ok r'
  unfolding compute_global_reward
  compute_global_reward_again r r' spread spread' height h = ground arith
