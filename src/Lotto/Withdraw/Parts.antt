-- ===== src/Lotto/Withdraw/Parts.antt =====
-- What each part of a withdrawal changes.
use glow_contracts.Base.{
  ℕ, ◌+◌, ◌-◌, ◌≡◌, nat_beq, nat_beq_iff, nat_eq, if◌then◌else◌, ◌∙◌, refl, sym, ap, Bool, true,
  false, List, [], ◌∷◌, ok, panic, arith, length, drop, with_ok, subst, ok-injective, or_fail, inl,
  inr, Bool-cases, leb, text_eq, fail_if, max_unbonding_claims, lotto, ◌++◌, ◌%◌,
}
use glow_contracts.Dict.{lookup, lookup-insert}
use glow_contracts.Platform.{Platform}
use glow_contracts.Tax.{deduct_tax}
use glow_contracts.Lotto.Types.{
  Store, State, Pool, Config, DepositorInfo, OperatorInfo, Addr, Env, Msg, Ticket, bank_send,
}
use glow_contracts.Lotto.Storage.{operator_registered, read_operator_info, store_operator_info}
use glow_contracts.Lotto.Rewards.{compute_global_operator_reward, compute_operator_reward}
use glow_contracts.Lotto.Operators.Shares.{
  operator_shares, store_operator_info-shares, compute_operator_reward-shares,
}
use glow_contracts.Lotto.Withdraw.{
  release_tickets, remove_holder, shrink_operator, debit, pay_out, max_claims,
}

pub release_tickets-frame :
    (a : Addr) (ts : List Ticket) (s s' : Store)
    → release_tickets a ts s ≡ ok s'
    → s' ≡ record s { tickets = s'.tickets }
unfolding release_tickets
release_tickets-frame a [] s s' h = ground arith
release_tickets-frame a (t ∷ ts) s s' h =
    with_ok (or_fail (lookup t s.tickets) panic) _ h λ l el hl.
      with_ok (or_fail (remove_holder a l) panic) _ hl λ r er hr. release_tickets-frame a ts _ s' hr

-- The shares that leave the operators: those of a depositor that has one.
abbrev pub operated : Bool → ℕ → ℕ
operated true n = n
operated false n = 0

module _ (p : Platform) where
  -- What the operator's part of a withdrawal has done.
  pub record Shrunk (s s' : Store) (state state' : State) (pool pool' : Pool) (i : DepositorInfo)
      (n : ℕ) : Type 0 where
    pub frame : s' ≡ record s { operators = s'.operators }
    pub tickets : state'.total_tickets ≡ state.total_tickets
    pub reserve : state'.total_reserve ≡ state.total_reserve
    pub pool_lem : pool' ≡ record pool { total_operator_shares = pool'.total_operator_shares }
    pub shares_lem : operator_shares s' + operated (operator_registered i) n ≡ operator_shares s
    pub counted :
        pool'.total_operator_shares + operated (operator_registered i) n
        ≡ pool.total_operator_shares
    pub lost :
        (b : Addr)
        → (read_operator_info s' b).shares
            + (if nat_beq i.operator_addr b then operated (operator_registered i) n else 0)
          ≡ (read_operator_info s b).shares

  -- One operator's shares are replaced, and no other's.
  store_operator_info-own :
      (s : Store) (a b : Addr) (o : OperatorInfo)
      → (read_operator_info (store_operator_info s a o) b).shares
        ≡ (if nat_beq a b then o.shares else (read_operator_info s b).shares)
  unfolding store_operator_info read_operator_info
  store_operator_info-own s a b o = ground (arith, lookup-insert b a o s.operators)

  lost_lem :
      (same : Bool) (sa sb sb' o x n : ℕ)
      → sb' ≡ (if same then x else sb)
      → (same ≡ true → sa ≡ sb)
      → o ≡ sa
      → x + n ≡ o
      → sb' + (if same then n else 0) ≡ sb
  lost_lem true sa sb sb' o x n e f g h = omega (arith, e, f refl)
  lost_lem false sa sb sb' o x n e f g h = omega (arith, e)

  store_operator_info-frame :
      (s : Store) (a : Addr) (o : OperatorInfo)
      → store_operator_info s a o ≡ record s { operators = (store_operator_info s a o).operators }
  unfolding store_operator_info
  store_operator_info-frame s a o = refl

  compute_global_operator_reward-kept :
      (s s' : State) (pool : Pool) (h : ℕ)
      → compute_global_operator_reward p s pool h ≡ ok s'
      → (s'.total_tickets ≡ s.total_tickets) × (s'.total_reserve ≡ s.total_reserve)
  unfolding compute_global_operator_reward
  compute_global_operator_reward-kept s s' pool h e = ground arith

  pub shrink_operator-Shrunk :
      (s s' : Store) (state state' : State) (pool pool' : Pool) (i : DepositorInfo) (n height : ℕ)
      → shrink_operator p s state pool i n height ≡ ok (s', (state', pool'))
      → Shrunk s s' state state' pool pool' i n
  unfolding shrink_operator
  shrink_operator-Shrunk s s' state state' pool pool' i n height h =
      elim (Bool-cases (operator_registered i)) [
        | inl reg ↦
            let a = i.operator_addr in
            with_ok (compute_global_operator_reward p state pool height) _ (rw reg at h)
              λ state1 e1 h1.
                with_ok (compute_operator_reward p state1 (read_operator_info s a)) _ h1 λ o e2 h2.
                  with_ok (p.sub o.shares n) _ h2 λ shares e3 h3.
                    with_ok (p.sub pool.total_operator_shares n) _ h3 λ t e4 h4.
                      let kept = compute_global_operator_reward-kept state state1 pool height e1 in
                      subst
                        (λ (r : Store × (State × Pool)). Shrunk s r.0 state r.1.0 pool r.1.1 i n)
                        (ok-injective h4)
                        (record {
                          frame = store_operator_info-frame s a (record o { shares = shares });
                          tickets = kept.0;
                          reserve = kept.1;
                          pool_lem = refl;
                          shares_lem = rw reg (
                              omega (
                                arith,
                                p.sub_lem o.shares n shares e3,
                                compute_operator_reward-shares p state1 (read_operator_info s a) o
                                    e2,
                                store_operator_info-shares p s a (record o { shares = shares }),
                              ));
                          counted = rw reg (p.sub_lem pool.total_operator_shares n t e4);
                          lost = λ b. rw reg (
                              lost_lem (nat_beq a b) (read_operator_info s a).shares _ _ o.shares
                                shares n
                                (store_operator_info-own s a b (record o { shares = shares }))
                                (λ same.
                                  ap (λ c. (read_operator_info s c).shares)
                                    ((nat_beq_iff a b).0 same))
                                (compute_operator_reward-shares p state1 (read_operator_info s a) o
                                  e2)
                                (p.sub_lem o.shares n shares e3));
                        })
        | inr unreg ↦
            subst (λ (r : Store × (State × Pool)). Shrunk s r.0 state r.1.0 pool r.1.1 i n)
              (ok-injective (rw unreg at h))
              (record {
                frame = refl;
                tickets = refl;
                reserve = refl;
                pool_lem = refl;
                shares_lem = rw unreg (omega arith);
                counted = rw unreg (omega arith);
                lost = λ b. rw unreg (ground arith);
              })
      ]

  -- The depositor, the pool and the state after the withdrawn amounts are taken off.
  pub record Debited (i i' : DepositorInfo) (pool pool' : Pool) (state state' : State)
      (shares aust n : ℕ) : Type 0 where
    pub info : i' ≡ record i { shares = i.shares - shares; tickets = drop n i.tickets }
    pub info_shares : i'.shares + shares ≡ i.shares
    pub info_tickets : i'.tickets ≡ drop n i.tickets
    pub info_rest : (i'.unbonding_info ≡ i.unbonding_info) × (i'.operator_addr ≡ i.operator_addr)
    pub pool_shares : pool'.total_user_shares + shares ≡ pool.total_user_shares
    pub pool_aust : pool'.total_user_aust + aust ≡ pool.total_user_aust
    pub pool_sponsors : pool'.total_sponsor_lottery_deposits ≡ pool.total_sponsor_lottery_deposits
    pub pool_operators : pool'.total_operator_shares ≡ pool.total_operator_shares
    pub tickets : state'.total_tickets + n ≡ state.total_tickets
    pub reserve : state'.total_reserve ≡ state.total_reserve

  pub debit-Debited :
      (i i' : DepositorInfo) (pool pool' : Pool) (state state' : State) (shares aust n : ℕ)
      → debit p i pool state shares aust n ≡ ok (i', (pool', state'))
      → Debited i i' pool pool' state state' shares aust n
  unfolding debit
  debit-Debited i i' pool pool' state state' shares aust n h =
      with_ok (p.sub i.shares shares) _ h λ a e1 h1.
        with_ok (p.sub pool.total_user_shares shares) _ h1 λ b e2 h2.
          with_ok (p.sub pool.total_user_aust aust) _ h2 λ c e3 h3.
            with_ok (p.sub state.total_tickets n) _ h3 λ d e4 h4.
              subst
                (λ (r : DepositorInfo × (Pool × State)).
                  Debited i r.0 pool r.1.0 state r.1.1 shares aust n)
                (ok-injective h4)
                (record {
                  info =
                      ap (λ (x : ℕ). record i { shares = x; tickets = drop n i.tickets })
                        (omega (arith, p.sub_lem i.shares shares a e1));
                  info_shares = p.sub_lem i.shares shares a e1;
                  info_tickets = refl;
                  info_rest = (refl, refl);
                  pool_shares = p.sub_lem pool.total_user_shares shares b e2;
                  pool_aust = p.sub_lem pool.total_user_aust aust c e3;
                  pool_sponsors = refl;
                  pool_operators = refl;
                  tickets = p.sub_lem state.total_tickets n d e4;
                  reserve = refl;
                })

  -- The payment: at once, where the fee and what is sent before tax make up the amount, or by a
  -- claim on the whole amount.
  abbrev pub Paid :
      Config
      → Env
      → Addr
      → Bool
      → ℕ
      → DepositorInfo
      → DepositorInfo
      → State
      → State
      → List Msg
      → Type 0
  Paid config env sender true amount i i' state state' msgs =
      (fee : ℕ) × (rest : ℕ) × (net : ℕ) × (fee + rest ≡ amount)
      × (p.mul_dec amount config.instant_withdrawal_fee ≡ ok fee)
      × (deduct_tax p config.stable_denom rest ≡ ok net)
      × (i' ≡ i)
      × (state' ≡ record state { total_reserve = state.total_reserve + fee })
      × (msgs ≡ bank_send sender (record { denom = config.stable_denom; coin_amount = net }) ∷ [])
  Paid config env sender false amount i i' state state' msgs =
      (i' ≡ record i {
        unbonding_info =
            i.unbonding_info
            ++ record { amount = amount; release_at = p.after config.unbonding_period env.block }
              ∷ [];
      })
      × (state' ≡ state)
      × (msgs ≡ [])

  pub pay_out-Paid :
      (config : Config) (env : Env) (sender : Addr) (instant : Bool) (amount : ℕ)
      (i i' : DepositorInfo) (state state' : State) (msgs : List Msg)
      → pay_out p config env sender instant amount i state ≡ ok (i', (state', msgs))
      → Paid config env sender instant amount i i' state state' msgs
  unfolding pay_out
  pay_out-Paid config env sender true amount i i' state state' msgs h =
      with_ok (p.mul_dec amount config.instant_withdrawal_fee) _ h λ fee e1 h1.
        with_ok (p.sub amount fee) _ h1 λ rest e2 h2.
          with_ok (p.add state.total_reserve fee) _ h2 λ reserve e3 h3.
            with_ok (p.to_uint128 rest) _ h3 λ coin e5 h5.
              with_ok (deduct_tax p config.stable_denom coin) _ h5 λ net e4 h4.
                subst
                  (λ (r : DepositorInfo × (State × List Msg)).
                    Paid config env sender true amount i r.0 state r.1.0 r.1.1)
                  (ok-injective h4)
                  (
                    fee,
                    rest,
                    net,
                    omega (arith, p.sub_lem amount fee rest e2),
                    e1,
                    ap (λ (n : ℕ). deduct_tax p config.stable_denom n)
                          (sym (p.to_uint128_lem rest coin e5))
                        ∙ e4,
                    refl,
                    ap (λ (n : ℕ). record state { total_reserve = n }) (p.add_lem _ _ reserve e3),
                    refl,
                  )
  pay_out-Paid config env sender false amount i i' state state' msgs h =
      with_ok
        (fail_if (leb max_claims (length i.unbonding_info % 256)) (lotto max_unbonding_claims)) _ h
        λ _ e1 h1.
          subst
            (λ (r : DepositorInfo × (State × List Msg)).
              Paid config env sender false amount i r.0 state r.1.0 r.1.1)
            (ok-injective h1) (refl, refl, refl)
