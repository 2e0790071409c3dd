-- ===== src/Lotto/Deposit/Fairness.antt =====
-- A deposit and the value of shares in aUST (deposit of contracts/lotto/src/contract.rs).
use glow_contracts.Base.{
  ℕ, ◌+◌, ◌*◌, ◌≤◌, ◌<◌, ◌≡◌, Option, none, List, ◌&&◌, ok, arith, with_ok, ok-injective, subst,
  nat_beq, Bool-cases, inl, inr,
}
use native.Mathlib.Nat.{mul-le-mul_right, mul-le-mul_left, le_of_mul-le-mul_right}
use glow_contracts.Platform.{Platform}
use glow_contracts.Lotto.Types.{Store, Env, MessageInfo, Msg, Pool}
use glow_contracts.Lotto.Deposit.{minted, decimal_from_ratio_or_one, execute_deposit}
use glow_contracts.Lotto.Deposit.Accounting.{deposit-Deposited}

price :
    (aust shares aust' shares' a n : ℕ)
    → aust' ≡ aust + a
    → shares' ≡ shares + n
    → n * aust ≤ a * shares
    → aust * shares' ≤ aust' * shares
price aust shares aust' shares' a n h k e = rw (h, k) (omega arith)

-- Two roundings down, of `a * r / one` and of `shares * one / aust`, do not exceed the exact value.
rounded :
    (one n a r aust shares : ℕ)
    → 0 < one
    → n * one ≤ a * r
    → r * aust ≤ shares * one
    → n * aust ≤ a * shares
rounded one n a r aust shares pos h k =
    let x : n * one * aust ≤ a * r * aust = mul-le-mul_right aust h in
    let y : a * (r * aust) ≤ a * (shares * one) = mul-le-mul_left a k in
    le_of_mul-le-mul_right (omega (arith, x, y)) pos

module _ (p : Platform) where
  minted-le :
      (pool : Pool) (net rate aust shares : ℕ)
      → minted p pool net rate ≡ ok (aust, shares)
      → shares * pool.total_user_aust ≤ aust * pool.total_user_shares
  unfolding minted decimal_from_ratio_or_one
  minted-le pool net rate aust shares h = with_ok (p.div_dec net rate) _ h λ a e1 h1.
      with_ok (decimal_from_ratio_or_one p pool.total_user_shares pool.total_user_aust) _ h1
        λ r e2 h2. with_ok (p.mul_dec a r) _ h2 λ n e3 h3.
          subst (λ (t : ℕ × ℕ). t.1 * pool.total_user_aust ≤ t.0 * pool.total_user_shares)
            (ok-injective h3)
            (ratio pool.total_user_shares pool.total_user_aust a r n e2 (p.mul_dec_lem a r n e3).0)
    where
      ratio :
          (s t a r n : ℕ)
          → decimal_from_ratio_or_one p s t ≡ ok r
          → n * p.one ≤ a * r
          → n * t ≤ a * s
      ratio s t a r n e b = elim (Bool-cases (nat_beq s 0 && nat_beq t 0)) [
        | inl z ↦ let e : t ≡ 0 = ground arith in rw e (omega arith)
        | inr nz ↦ rounded p.one n a r t s p.one_pos b (p.dec_from_ratio_lem s t r (ground arith)).0
      ]

  -- A deposit that succeeds does not lower the value of a share in aUST.
  pub execute_deposit-fair :
      (s s' : Store) (env : Env) (info : MessageInfo) (encoded : ℕ) (operator : Option ℕ)
      (msgs : List Msg)
      → execute_deposit p s env info encoded operator ≡ ok (s', msgs)
      → s.pool.total_user_aust * s'.pool.total_user_shares
        ≤ s'.pool.total_user_aust * s.pool.total_user_shares
  unfolding execute_deposit
  execute_deposit-fair s s' env info encoded operator msgs h =
      let d = deposit-Deposited p s s' env info none operator encoded msgs h in
      price _ _ s'.pool.total_user_aust s'.pool.total_user_shares d.aust d.shares d.pool_aust
        d.pool_shares (minted-le s.pool d.net d.rate d.aust d.shares d.worth)
