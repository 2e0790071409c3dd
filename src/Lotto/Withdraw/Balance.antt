-- ===== src/Lotto/Withdraw/Balance.antt =====
-- Withdrawals, the balance of the books and the value of shares (contracts/lotto/src/contract.rs).
use glow_contracts.Base.{
  ℕ, ◌+◌, ◌*◌, ◌≤◌, ◌≡◌, Option, List, Bool, Result, Error, ok, err, ◌>>=◌, arith, ap, with_ok,
  subst, ltb, if◌then◌else◌,
}
use glow_contracts.Dict.{total}
use glow_contracts.Platform.{Platform}
use glow_contracts.Lotto.Types.{Store, SponsorInfo, Env, MessageInfo, Msg, Pool, DepositorInfo}
use glow_contracts.Lotto.Storage.{read_depositor_info}
use glow_contracts.Lotto.Books.{IsBalanced}
use glow_contracts.Lotto.Withdraw.{execute_withdraw, value_to_withdraw}
use glow_contracts.Lotto.Withdraw.Accounting.{execute_withdraw-Withdrawn}

still_covered :
    (after before pool pool' less : ℕ)
    → after + less ≡ before
    → pool' + less ≡ pool
    → pool ≤ before
    → pool' ≤ after
still_covered after before pool pool' less h k e = omega arith

-- The price of a share, in cross products.
fair :
    (aust' shares' a n : ℕ)
    → a * (shares' + n) ≤ n * (aust' + a)
    → (aust' + a) * shares' ≤ aust' * (shares' + n)
fair aust' shares' a n e = omega arith

-- A value that is given unless a test refuses it.
value_of_test :
    (c : Bool) (amount : Result ℕ) (f : ℕ → Error) (x y a v : ℕ)
    → ◌≡◌ {A = Result (ℕ × ℕ)} (if c then (amount >>= λ n. err (f n)) else ok (x, y)) (ok (a, v))
    → x ≡ a
value_of_test c amount f x y a v h = ground arith

price :
    (aust shares aust' shares' a n : ℕ)
    → aust' + a ≡ aust
    → shares' + n ≡ shares
    → a * shares ≤ n * aust
    → aust * shares' ≤ aust' * shares
price aust shares aust' shares' a n h k = rw (← h, ← k) (fair aust' shares' a n)

module _ (p : Platform) where
  -- A withdrawal that succeeds, instant or by a claim, keeps the books balanced.
  pub execute_withdraw-IsBalanced :
      (s s' : Store) (env : Env) (info : MessageInfo) (asked : Option ℕ) (instant : Option Bool)
      (msgs : List Msg)
      → execute_withdraw p s env info asked instant ≡ ok (s', msgs)
      → IsBalanced s
      → IsBalanced s'
  execute_withdraw-IsBalanced s s' env info asked instant msgs h b =
      let d = execute_withdraw-Withdrawn p s s' env info asked instant msgs h in
      record {
        shares = omega (arith, d.users, d.pool_shares, b.shares);
        sponsors = omega (
          arith,
          ap (total (λ (i : SponsorInfo). i.lottery_deposit)) d.sponsors_lem,
          d.pool_sponsors,
          b.sponsors,
        );
        tickets = omega (arith, d.tickets_state, d.tickets_users b.synced, b.tickets);
        operators = still_covered _ _ _ _ _ d.left_operator d.left_pool b.operators;
        synced = d.synced b.synced;
      }

  value_to_withdraw-le :
      (pool : Pool) (i : DepositorInfo) (rate n a v : ℕ)
      → value_to_withdraw p pool i rate n ≡ ok (a, v)
      → a * pool.total_user_shares ≤ n * pool.total_user_aust
  unfolding value_to_withdraw
  value_to_withdraw-le pool i rate n a v h =
      with_ok (p.multiply_ratio n pool.total_user_aust pool.total_user_shares) _ h λ x e1 h1.
        with_ok (p.mul_dec x rate) _ h1 λ y e2 h2.
          with_ok (p.dec_from_ratio i.shares pool.total_user_shares) _ h2 λ r e3 h3.
            with_ok (p.mul_dec pool.total_user_aust r) _ h3 λ w e4 h4.
              with_ok (p.mul_dec w rate) _ h4 λ z e5 h5.
                subst (λ (k : ℕ). k * pool.total_user_shares ≤ n * pool.total_user_aust)
                  (value_of_test (ltb z y) _ _ x y a v h5)
                  (p.multiply_ratio_lem n pool.total_user_aust pool.total_user_shares x e1).0

  -- A withdrawal that succeeds does not lower the value of a share in aUST.
  pub execute_withdraw-fair :
      (s s' : Store) (env : Env) (info : MessageInfo) (asked : Option ℕ) (instant : Option Bool)
      (msgs : List Msg)
      → execute_withdraw p s env info asked instant ≡ ok (s', msgs)
      → s.pool.total_user_aust * s'.pool.total_user_shares
        ≤ s'.pool.total_user_aust * s.pool.total_user_shares
  execute_withdraw-fair s s' env info asked instant msgs h =
      let d = execute_withdraw-Withdrawn p s s' env info asked instant msgs h in
      price _ _ s'.pool.total_user_aust s'.pool.total_user_shares d.aust d.shares d.pool_aust
        d.pool_shares
        (value_to_withdraw-le s.pool (read_depositor_info p s info.sender) d.rate d.shares d.aust
          d.value d.worth)
