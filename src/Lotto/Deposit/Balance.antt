-- ===== src/Lotto/Deposit/Balance.antt =====
-- Deposits, gifts and the balance of the books (contracts/lotto/src/contract.rs).
use glow_contracts.Base.{
  ℕ, ◌+◌, ◌≤◌, ◌≡◌, Option, none, some, List, ok, arith, false, true, nat_beq, fail_if->>-eq-ok, ap,
  lotto, gift_to_self, subst,
}
use glow_contracts.Dict.{total}
use glow_contracts.Platform.{Platform}
use glow_contracts.Lotto.Types.{SponsorInfo, DepositorInfo, Store, Addr, Env, MessageInfo, Msg}
use glow_contracts.Lotto.Books.{IsBalanced, user_tickets}
use glow_contracts.Lotto.Operators.Shares.{operator_shares, uncounted}
use glow_contracts.Lotto.Storage.{operator_registered}
use glow_contracts.Lotto.Deposit.{execute_deposit, execute_gift}
use glow_contracts.Lotto.Deposit.Accounting.{deposit-Deposited}
use glow_contracts.Lotto.Deposit.Effects.{Deposited, info_of}

-- More under operators than is counted stays so when no less is counted for the same growth.
still_covered :
    (after before pool pool' more : ℕ)
    → after + pool ≡ before + pool' + more
    → pool ≤ before
    → pool' ≤ after
still_covered after before pool pool' more h k = omega arith

module _ (p : Platform) where
  Deposited-IsBalanced :
      (s s' : Store) (env : Env) (info : MessageInfo) (recipient operator : Option Addr)
      (msgs : List Msg)
      → Deposited p s s' env info recipient operator msgs
      → IsBalanced s
      → IsBalanced s'
  Deposited-IsBalanced s s' env info recipient operator msgs d b = record {
    shares = omega (arith, d.users, d.pool_shares, b.shares);
    sponsors = omega (
      arith,
      ap (total (λ (i : SponsorInfo). i.lottery_deposit)) d.sponsors_lem,
      d.pool_sponsors,
      b.sponsors,
    );
    tickets = omega (arith, d.tickets_state, d.tickets_users b.synced, b.tickets);
    operators = still_covered _ _ _ _ _ d.gap b.operators;
    synced = d.synced b.synced;
  }

  -- The tickets of the depositors and their count in the state grow alike, and the operators'
  -- shares grow as the pool's sum of them and by what is not counted.
  abbrev pub InStep : Store → Store → Addr → Option Addr → Type 0
  InStep s s' depositor operator =
      (user_tickets s' + s.state.total_tickets ≡ user_tickets s + s'.state.total_tickets)
      × (operator_shares s' + s.pool.total_operator_shares
          ≡ operator_shares s
            + s'.pool.total_operator_shares
            + uncounted (operator_registered (info_of p s depositor)) (info_of p s depositor).shares
                operator)

  Deposited-InStep :
      (s s' : Store) (env : Env) (info : MessageInfo) (recipient operator : Option Addr)
      (msgs : List Msg) (d : Deposited p s s' env info recipient operator msgs)
      → IsBalanced s
      → InStep s s' d.depositor operator
  Deposited-InStep s s' env info recipient operator msgs d b =
      (omega (arith, d.tickets_users b.synced, d.tickets_state), d.gap)

  -- A deposit that succeeds keeps the books balanced, adds as many tickets to the depositors as to
  -- their count in the state, and as many shares to the operators as to the pool's sum of them,
  -- but for the shares that a sender who is assigned an operator now held before.
  pub execute_deposit-IsBalanced :
      (s s' : Store) (env : Env) (info : MessageInfo) (encoded : ℕ) (operator : Option Addr)
      (msgs : List Msg)
      → execute_deposit p s env info encoded operator ≡ ok (s', msgs)
      → IsBalanced s
      → IsBalanced s' × InStep s s' info.sender operator
  unfolding execute_deposit
  execute_deposit-IsBalanced s s' env info encoded operator msgs h b =
      let d = deposit-Deposited p s s' env info none operator encoded msgs h in
      (
        Deposited-IsBalanced s s' env info none operator msgs d b,
        subst (λ (a : Addr). InStep s s' a operator) d.is_depositor
            (Deposited-InStep s s' env info none operator msgs d b),
      )

  -- What a gift has credited to an account, and to no other.
  pub record Given (s s' : Store) (to : Addr) : Type 0 where
    pub account : Addr
    pub valid : p.addr_validate to ≡ ok account
    pub shares : ℕ
    pub account_shares : (info_of p s' account).shares ≡ (info_of p s account).shares + shares
    pub pool_shares : s'.pool.total_user_shares ≡ s.pool.total_user_shares + shares
    pub others : (b : Addr) → nat_beq account b ≡ false → info_of p s' b ≡ info_of p s b

  Deposited-Given :
      (s s' : Store) (env : Env) (info : MessageInfo) (to : Addr) (operator : Option Addr)
      (msgs : List Msg)
      → Deposited p s s' env info (some to) operator msgs
      → Given s s' to
  Deposited-Given s s' env info to operator msgs d = record {
    account = d.depositor;
    valid = d.is_depositor;
    shares = d.shares;
    account_shares =
        let self : nat_beq d.depositor d.depositor ≡ true = ground arith in
        ap (λ (x : DepositorInfo). x.shares) (rw self at (d.credited d.depositor));
    pool_shares = d.pool_shares;
    others = λ b other. rw other at (d.credited b);
  }

  -- A gift that succeeds names another address than the sender's, keeps the books balanced,
  -- credits the account of the address with as many shares as the pool gains, and changes no other
  -- depositor.
  pub execute_gift-IsBalanced :
      (s s' : Store) (env : Env) (info : MessageInfo) (encoded : ℕ) (to : Addr)
      (operator : Option Addr) (msgs : List Msg)
      → execute_gift p s env info encoded to operator ≡ ok (s', msgs)
      → IsBalanced s
      → (nat_beq to info.sender ≡ false) × (IsBalanced s' × Given s s' to)
  unfolding execute_gift
  execute_gift-IsBalanced s s' env info encoded to operator msgs h b =
      let (other, e) = fail_if->>-eq-ok (nat_beq to info.sender) (lotto gift_to_self) _ h in
      let d = deposit-Deposited p s s' env info (some to) operator encoded msgs e in
      (
        other,
        (
          Deposited-IsBalanced s s' env info (some to) operator msgs d b,
          Deposited-Given s s' env info to operator msgs d,
        ),
      )
