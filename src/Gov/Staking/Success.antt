-- ===== src/Gov/Staking/Success.antt =====
-- What the calls on staked tokens have done when they succeed.
use glow_contracts.Base.{
  ℕ, ◌+◌, ◌*◌, ◌≤◌, ◌≡◌, ◌∙◌, sym, ap, ok, some, Option, List, arith, with_ok, with_test,
  ok-injective, or_fail-eq-ok, checked-eq-ok, minus-eq-ok, ltb, nat_beq, ltb_false→le, gov,
  GovError, nat_eq, or_fail, or_default, checked, divided, minus, Addr, MessageInfo, ◌||◌,
  if◌then◌else◌,
}
use glow_contracts.Dict.{lookup, insert}
use glow_contracts.Platform.{Platform}
use glow_contracts.Gov.Types.{Store, TokenManager, Msg}
use glow_contracts.Gov.Staking.{
  stake_voting_tokens, withdraw_voting_tokens, glow_balance, compute_locked_balance,
  shares_withdrawn, amount_withdrawn, send_tokens, no_tokens, retain_locked,
}
use glow_contracts.Gov.Polls.Success.{result_parts}

module _ (p : Platform) (s s' : Store) (msgs : List Msg) where
  pub record Staked (sender : Addr) (amount : ℕ) : Type 0 where
    pub key : Addr
    pub balance : ℕ
    pub balance_lem : glow_balance p s.config s.state ≡ ok balance
    pub total_balance : ℕ
    pub total_balance_lem : total_balance + (s.state.total_deposit + amount) ≡ balance
    pub share : ℕ
    pub share_lem :
        (if nat_beq total_balance 0 || nat_beq s.state.total_share 0
          then ok amount
          else p.multiply_ratio128 amount s.state.total_share total_balance)
        ≡ ok share
    pub after : s' ≡ record s {
      state = record s.state { total_share = s.state.total_share + share };
      bank =
          insert key
            (record (or_default no_tokens (lookup key s.bank)) {
              share = (or_default no_tokens (lookup key s.bank)).share + share;
            })
            s.bank;
    }

  pub stake_voting_tokens-Staked :
      (sender : Addr) (amount : ℕ)
      → stake_voting_tokens p s sender amount ≡ ok (s', msgs)
      → Staked sender amount
  unfolding stake_voting_tokens
  stake_voting_tokens-Staked sender amount run =
      with_test (nat_beq amount 0) _ _ run λ some_amount r1.
        with_ok (p.addr_canonicalize sender) _ r1 λ key e2 r2.
          with_ok (glow_balance p s.config s.state) _ r2 λ balance e3 r3.
            with_ok (p.add128 s.state.total_deposit amount) _ r3 λ not_staked e4 r4.
              with_ok (p.sub128 balance not_staked) _ r4 λ total_balance e5 r5.
                with_ok
                  (if nat_beq total_balance 0 || nat_beq s.state.total_share 0
                    then ok amount
                    else p.multiply_ratio128 amount s.state.total_share total_balance)
                  _ r5
                  λ share e6 r6.
                    with_ok (p.add128 (or_default no_tokens (lookup key s.bank)).share share) _ r6
                      λ user e7 r7. with_ok (p.add128 s.state.total_share share) _ r7 λ total e8 r8.
                        record {
                          key = key;
                          balance = balance;
                          balance_lem = e3;
                          total_balance = total_balance;
                          total_balance_lem = omega (
                            arith,
                            p.add128_lem _ _ not_staked e4,
                            p.sub128_lem balance not_staked _ e5,
                          );
                          share = share;
                          share_lem = e6;
                          after =
                              rw
                                (sym (
                                  p.add128_lem (or_default no_tokens (lookup key s.bank)).share
                                    share user e7))
                                (rw (sym (p.add128_lem s.state.total_share share total e8))
                                  ((result_parts r8).0));
                        }

  pub record Withdrawn (info : MessageInfo) (amount : Option ℕ) : Type 0 where
    pub key : Addr
    pub manager : TokenManager
    pub found : lookup key s.bank ≡ some manager
    pub balance : ℕ
    pub balance_lem : glow_balance p s.config s.state ≡ ok balance
    pub total_balance : ℕ
    pub total_balance_lem : total_balance + s.state.total_deposit ≡ balance
    pub s1 : Store
    pub manager1 : TokenManager
    pub locked : ℕ
    pub locked_lem : compute_locked_balance s manager key ≡ ok (s1, (manager1, locked))
    pub locked_share : ℕ
    pub locked_share_lem : divided (locked * s.state.total_share) total_balance ≡ ok locked_share
    pub withdraw_share : ℕ
    pub withdraw_share_lem :
        shares_withdrawn p amount manager1.share locked_share s.state.total_share total_balance
        ≡ ok withdraw_share
    pub withdraw_amount : ℕ
    pub withdraw_amount_lem :
        amount_withdrawn p amount withdraw_share s.state.total_share total_balance
        ≡ ok withdraw_amount
    pub enough : locked_share + withdraw_share ≤ manager1.share
    pub share : ℕ
    pub share_lem : share + withdraw_share ≡ manager1.share
    pub total : ℕ
    pub total_lem : total + withdraw_share ≡ s.state.total_share
    pub sent : send_tokens p s.config.glow_token key withdraw_amount ≡ ok msgs
    pub after : s' ≡ record s1 {
      state = record s.state { total_share = total };
      bank = insert key (record manager1 { share = share }) s1.bank;
    }

  pub withdraw_voting_tokens-Withdrawn :
      (info : MessageInfo) (amount : Option ℕ)
      → withdraw_voting_tokens p s info amount ≡ ok (s', msgs)
      → Withdrawn info amount
  unfolding withdraw_voting_tokens
  withdraw_voting_tokens-Withdrawn info amount run =
      with_ok (p.addr_canonicalize info.sender) _ run λ key e1 r1.
        with_ok (or_fail (lookup key s.bank) (gov GovError.nothing_staked)) _ r1 λ manager e2 r2.
          with_ok (glow_balance p s.config s.state) _ r2 λ balance e3 r3.
            with_ok (p.sub128 balance s.state.total_deposit) _ r3 λ total_balance e4 r4.
              with_ok (compute_locked_balance s manager key) _ r4 λ unlocked e5 r5.
                with_ok (checked 128 (unlocked.1.1 * s.state.total_share)) _ r5 λ product e6 r6.
                  with_ok (divided product total_balance) _ r6 λ locked_share e7 r7.
                    with_ok
                      (shares_withdrawn p amount unlocked.1.0.share locked_share s.state.total_share
                        total_balance)
                      _ r7
                      λ withdraw_share e8 r8.
                        with_ok
                          (amount_withdrawn p amount withdraw_share s.state.total_share
                            total_balance)
                          _ r8
                          λ withdraw_amount e9 r9.
                            with_ok (checked 128 (locked_share + withdraw_share)) _ r9
                              λ claimed e10 r10.
                                with_test (ltb unlocked.1.0.share claimed) _ _ r10 λ enough r11.
                                  with_ok (minus unlocked.1.0.share withdraw_share) _ r11
                                    λ share e12 r12.
                                      with_ok (minus s.state.total_share withdraw_share) _ r12
                                        λ total e13 r13.
                                          with_ok
                                            (send_tokens p s.config.glow_token key withdraw_amount)
                                            _ r13
                                            λ sent e14 r14. record {
                                              key = key;
                                              manager = manager;
                                              found = or_fail-eq-ok (lookup key s.bank) _ e2;
                                              balance = balance;
                                              balance_lem = e3;
                                              total_balance = total_balance;
                                              total_balance_lem =
                                                  p.sub128_lem balance s.state.total_deposit _ e4;
                                              s1 = unlocked.0;
                                              manager1 = unlocked.1.0;
                                              locked = unlocked.1.1;
                                              locked_lem = e5;
                                              locked_share = locked_share;
                                              locked_share_lem = rw (checked-eq-ok 128 _ e6) at e7;
                                              withdraw_share = withdraw_share;
                                              withdraw_share_lem = e8;
                                              withdraw_amount = withdraw_amount;
                                              withdraw_amount_lem = e9;
                                              enough = omega (
                                                arith,
                                                checked-eq-ok 128 _ e10,
                                                ltb_false→le unlocked.1.0.share claimed enough,
                                              );
                                              share = share;
                                              share_lem =
                                                  minus-eq-ok unlocked.1.0.share withdraw_share e12;
                                              total = total;
                                              total_lem =
                                                  minus-eq-ok s.state.total_share withdraw_share
                                                    e13;
                                              sent = e14 ∙ ap ok (sym (result_parts r14).1);
                                              after = (result_parts r14).0;
                                            }

-- A withdrawal leaves the polls as they are.
pub compute_locked_balance-polls :
    (s s1 : Store) (m m1 : TokenManager) (voter : Addr) (n : ℕ)
    → compute_locked_balance s m voter ≡ ok (s1, (m1, n))
    → s1.polls ≡ s.polls
unfolding compute_locked_balance
compute_locked_balance-polls s s1 m m1 voter n h =
    with_ok (retain_locked s.polls voter s.poll_voters m.locked_balance) _ h
      λ kept e r. sym (ap (λ (t : Store × (TokenManager × ℕ)). t.0.polls) (ok-injective r))
