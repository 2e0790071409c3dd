-- ===== src/Lotto/Claims/Balance.antt =====
-- The claims of prizes and the balance of the books (contracts/lotto/src/contract.rs).
use glow_contracts.Base.{
  ℕ, ◌≡◌, sym, subst, List, [], ◌∷◌, ok, with_ok, with_test, nat_beq, ltb, lotto, ok-injective, inl,
  inr, insufficient_claimable_funds, insufficient_funds,
}
use glow_contracts.Platform.{Platform}
use glow_contracts.Tax.{deduct_tax}
use glow_contracts.Lotto.Types.{Store, Env, MessageInfo, Msg, Addr}
use glow_contracts.Lotto.Storage.{read_depositor_stats, read_depositor_data}
use glow_contracts.Lotto.Books.{IsBalanced}
use glow_contracts.Lotto.Deposit.{check_not_started}
use glow_contracts.Lotto.Claims.{claim_one, claim_all, execute_claim_lottery}
use glow_contracts.Lotto.Claims.Once.{claim_one-Claimed}

module _ (p : Platform) where
  claim_one-IsBalanced :
      (a : Addr) (id : ℕ) (s s' : Store) (ust glow ust' glow' : ℕ)
      → claim_one p a id s ust glow ≡ ok (s', (ust', glow'))
      → IsBalanced s
      → IsBalanced s'
  unfolding read_depositor_stats read_depositor_data
  claim_one-IsBalanced a id s s' ust glow ust' glow' h b =
      elim (claim_one-Claimed p a id s s' ust glow ust' glow' h) [
        | inl (nothing, same, unpaid) ↦ subst IsBalanced (sym same) b
        | inr (x, found, unclaimed, marked) ↦ subst IsBalanced (sym marked) (record {
          shares = b.shares;
          sponsors = b.sponsors;
          tickets = b.tickets;
          operators = b.operators;
          synced = b.synced;
        })
      ]

  claim_all-IsBalanced :
      (a : Addr) (ids : List ℕ) (s s' : Store) (ust glow ust' glow' : ℕ)
      → claim_all p a ids s ust glow ≡ ok (s', (ust', glow'))
      → IsBalanced s
      → IsBalanced s'
  unfolding claim_all
  claim_all-IsBalanced a [] s s' ust glow ust' glow' h b =
      subst (λ (t : Store × (ℕ × ℕ)). IsBalanced t.0) (ok-injective h) b
  claim_all-IsBalanced a (id ∷ ids) s s' ust glow ust' glow' h b =
      with_ok (claim_one p a id s ust glow) _ h λ t e h1.
        claim_all-IsBalanced a ids t.0 s' t.1.0 t.1.1 ust' glow' h1
          (claim_one-IsBalanced a id s t.0 ust glow t.1.0 t.1.1 e b)

  pub execute_claim_lottery-IsBalanced :
      (s s' : Store) (env : Env) (info : MessageInfo) (ids : List ℕ) (msgs : List Msg)
      → execute_claim_lottery p s env info ids ≡ ok (s', msgs)
      → IsBalanced s
      → IsBalanced s'
  unfolding execute_claim_lottery
  execute_claim_lottery-IsBalanced s s' env info ids msgs h b =
      let denom = s.config.stable_denom in
      with_ok (check_not_started s) _ h λ _ e h1.
        with_ok (claim_all p info.sender ids s 0 0) _ h1 λ t e1 h2.
          with_test (nat_beq t.1.0 0) (lotto insufficient_claimable_funds) _ h2 λ _ h3.
            with_ok (deduct_tax p denom t.1.0) _ h3 λ net e3 h4.
              with_ok (p.bank_balance env.contract denom) _ h4 λ balance e4 h5.
                with_ok (p.to_uint128 balance) _ h5 λ available e5 h6.
                  with_test (ltb available t.1.0) (lotto (insufficient_funds t.1.0 balance)) _ h6
                    λ _ h7.
                      subst (λ (r : Store × List Msg). IsBalanced r.0) (ok-injective h7)
                        (claim_all-IsBalanced info.sender ids s t.0 0 0 t.1.0 t.1.1 e1 b)
