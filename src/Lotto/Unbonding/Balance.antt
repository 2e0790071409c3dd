-- ===== src/Lotto/Unbonding/Balance.antt =====
-- The payment of unbonded withdrawals and the balance of the books (contracts/lotto/src/contract.rs).
use glow_contracts.Base.{
  ℕ, ◌+◌, refl, ◌≡◌, ap, subst, List, ok, none, with_ok, with_test, nat_beq, ltb, lotto,
  ok-injective, arith, length, insufficient_claimable_funds, insufficient_funds,
}
use glow_contracts.Dict.{total}
use glow_contracts.Platform.{Platform}
use glow_contracts.Tax.{deduct_tax}
use glow_contracts.Lotto.Types.{
  Store, DepositorInfo, SponsorInfo, OperatorInfo, Env, MessageInfo, Msg, Addr,
}
use glow_contracts.Lotto.Storage.{read_depositor_info, store_depositor_info, read_depositor_stats}
use glow_contracts.Lotto.Books.{IsBalanced, Stored, store_depositor_info-Stored}
use glow_contracts.Lotto.Deposit.{check_not_started}
use glow_contracts.Lotto.Deposit.Accounting.{length-read_tickets}
use glow_contracts.Lotto.Unbonding.{claim_unbonded_withdrawals, sum_buckets, execute_claim_unbonded}
use glow_contracts.Lotto.Unbonding.Payment.{claim_unbonded_withdrawals_lem}

module _ (p : Platform) where
  read_shares :
      (s : Store) (a : Addr)
      → (read_depositor_info p s a).shares ≡ (read_depositor_stats s a).shares
  unfolding read_depositor_info
  read_shares s a = refl

  -- Storing a depositor with the same shares and as many tickets or more leaves the books balanced.
  pub Stored-IsBalanced :
      (s s' : Store) (a : Addr) (i : DepositorInfo) (more : ℕ)
      → i.shares ≡ (read_depositor_info p s a).shares
      → length i.tickets ≡ length (read_depositor_info p s a).tickets + more
      → Stored s s' a i
      → IsBalanced s
      → IsBalanced s'
  Stored-IsBalanced s s' a i more same_shares same_tickets d b = record {
    shares = omega (
      arith,
      d.shares_lem,
      same_shares,
      read_shares s a,
      b.shares,
      ap (λ (t : Store). t.pool.total_user_shares) d.frame,
    );
    sponsors = omega (
      arith,
      b.sponsors,
      ap (λ (t : Store). total (λ (x : SponsorInfo). x.lottery_deposit) t.sponsors) d.frame,
      ap (λ (t : Store). t.pool.total_sponsor_lottery_deposits) d.frame,
    );
    tickets = omega (
      arith,
      d.tickets_lem,
      same_tickets,
      length-read_tickets p s a,
      b.synced a,
      b.tickets,
      ap (λ (t : Store). t.state.total_tickets) d.frame,
    );
    operators = omega (
      arith,
      b.operators,
      ap (λ (t : Store). total (λ (x : OperatorInfo). x.shares) t.operators) d.frame,
      ap (λ (t : Store). t.pool.total_operator_shares) d.frame,
    );
    synced = d.synced b.synced;
  }

  pub execute_claim_unbonded-IsBalanced :
      (s s' : Store) (env : Env) (info : MessageInfo) (msgs : List Msg)
      → execute_claim_unbonded p s env info ≡ ok (s', msgs)
      → IsBalanced s
      → IsBalanced s'
  unfolding execute_claim_unbonded
  execute_claim_unbonded-IsBalanced s s' env info msgs h b =
      let i = read_depositor_info p s info.sender in
      let denom = s.config.stable_denom in
      with_ok (claim_unbonded_withdrawals p i env.block none) _ h λ x e1 h1.
        with_ok (check_not_started s) _ h1 λ _ e4 h4.
          with_test (nat_beq x.1 0) (lotto insufficient_claimable_funds) _ h4 λ _ h5.
            with_ok (deduct_tax p denom x.1) _ h5 λ net e6 h6.
              with_ok (p.bank_balance env.contract denom) _ h6 λ balance e7 h7.
                with_ok (sum_buckets p 0 s.state.prize_buckets) _ h7 λ reserved e8 h8.
                  with_ok (p.sub balance reserved) _ h8 λ spare e9 h9.
                    with_ok (p.to_uint128 spare) _ h9 λ available e10 h10.
                      with_test (ltb available x.1) (lotto (insufficient_funds x.1 spare)) _ h10
                        λ _ h11.
                          with_ok (store_depositor_info p s info.sender x.0 env.block.block_height)
                            _ h11
                            λ s1 e12 h12.
                              let same =
                                (claim_unbonded_withdrawals_lem p i x.0 env.block x.1 e1).0 in
                              subst (λ (r : Store × List Msg). IsBalanced r.0) (ok-injective h12)
                                (Stored-IsBalanced s s1 info.sender x.0 0
                                  (ap (λ (d : DepositorInfo). d.shares) same)
                                  (omega (arith, ap (λ (d : DepositorInfo). length d.tickets) same))
                                  (store_depositor_info-Stored p s s1 info.sender x.0
                                    env.block.block_height e12)
                                  b)
