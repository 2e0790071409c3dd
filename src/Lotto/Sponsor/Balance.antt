-- ===== src/Lotto/Sponsor/Balance.antt =====
-- Sponsorships and the balance of the books (contracts/lotto/src/contract.rs).
use glow_contracts.Base.{
  ℕ, nat_eq, ◌+◌, ◌≡◌, refl, subst, Option, none, some, Bool, false, List, ok, arith, with_ok,
  with_test, nat_beq, lotto, ok-injective, zero_sponsorship_amount, no_sponsor_lottery_deposit,
  Bool-cases, inl, inr,
}
use glow_contracts.Dict.{total-insert}
use glow_contracts.Platform.{Platform}
use glow_contracts.Tax.{deduct_tax}
use glow_contracts.Lotto.Types.{Store, State, SponsorInfo, Pool, Addr, Env, MessageInfo, Msg}
use glow_contracts.Lotto.Storage.{
  read_sponsor_info, store_sponsor_info, or_default, read_depositor_stats, read_depositor_data,
}
use glow_contracts.Lotto.Rewards.{
  compute_sponsor_reward, compute_global_reward, compute_global_sponsor_reward,
}
use glow_contracts.Lotto.Books.{IsBalanced, sponsor_deposits}
use glow_contracts.Lotto.Deposit.{amount_sent, check_not_started}
use glow_contracts.Lotto.Sponsor.{
  sponsor_deposit, sponsor_award, execute_sponsor, execute_sponsor_withdraw, check_distribution,
  fill_buckets,
}

store_sponsor_info-deposits :
    (s : Store) (a : Addr) (i : SponsorInfo)
    → sponsor_deposits (store_sponsor_info s a i) + (read_sponsor_info s a).lottery_deposit
      ≡ sponsor_deposits s + i.lottery_deposit
unfolding store_sponsor_info read_sponsor_info
store_sponsor_info-deposits s a i =
    ground (arith, total-insert (λ (x : SponsorInfo). x.lottery_deposit) a i s.sponsors)

-- The change of one sponsor's deposit with the same change of the pool.
put_sponsor-IsBalanced :
    (s : Store) (state : State) (a : Addr) (i : SponsorInfo) (n : ℕ)
    → state.total_tickets ≡ s.state.total_tickets
    → n + (read_sponsor_info s a).lottery_deposit
      ≡ s.pool.total_sponsor_lottery_deposits + i.lottery_deposit
    → IsBalanced s
    → IsBalanced (record (store_sponsor_info s a i) {
      state = state;
      pool = record s.pool { total_sponsor_lottery_deposits = n };
    })
unfolding store_sponsor_info read_depositor_stats read_depositor_data
put_sponsor-IsBalanced s state a i n same e b = record {
  shares = b.shares;
  sponsors = omega (arith, store_sponsor_info-deposits s a i, b.sponsors, e);
  tickets = omega (arith, b.tickets, same);
  operators = b.operators;
  synced = b.synced;
}

module _ (p : Platform) where
  compute_global_sponsor_reward-tickets :
      (s s' : State) (pool : Pool) (height : ℕ)
      → compute_global_sponsor_reward p s pool height ≡ ok s'
      → s'.total_tickets ≡ s.total_tickets
  unfolding compute_global_sponsor_reward
  compute_global_sponsor_reward-tickets s s' pool height h =
      with_ok
        (compute_global_reward p s.sponsor_reward_emission_index pool.total_sponsor_lottery_deposits
          height)
        _ h
        λ r e h1. subst (λ (t : State). t.total_tickets ≡ s.total_tickets) (ok-injective h1) refl

  compute_sponsor_reward-deposit :
      (s : State) (i i' : SponsorInfo)
      → compute_sponsor_reward p s i ≡ ok i'
      → i'.lottery_deposit ≡ i.lottery_deposit
  unfolding compute_sponsor_reward
  compute_sponsor_reward-deposit s i i' h = ground arith

  sponsor_deposit-IsBalanced :
      (s s' : Store) (state : State) (env : Env) (info : MessageInfo) (amount : ℕ)
      (distribution : Option (List ℕ)) (msgs : List Msg)
      → state.total_tickets ≡ s.state.total_tickets
      → sponsor_deposit p s state env info amount distribution ≡ ok (s', msgs)
      → IsBalanced s
      → IsBalanced s'
  unfolding sponsor_deposit
  sponsor_deposit-IsBalanced s s' state env info amount (some d) msgs same h b = ground arith
  sponsor_deposit-IsBalanced s s' state env info amount none msgs same h b =
      with_ok (deduct_tax p s.config.stable_denom amount) _ h λ net e1 h1.
        with_ok (p.exchange_rate s.config.anchor_contract env.block.block_height) _ h1 λ rate e2 h2.
          with_ok (p.div_dec net rate) _ h2 λ aust e3 h3.
            with_ok (p.mul_dec aust rate) _ h3 λ value e4 h4.
              with_ok (compute_sponsor_reward p state (read_sponsor_info s info.sender)) _ h4
                λ i e5 h5. with_ok (p.add i.lottery_deposit value) _ h5 λ deposit e6 h6.
                  with_ok (p.add s.pool.total_sponsor_lottery_deposits value) _ h6 λ total e7 h7.
                    subst (λ (r : Store × List Msg). IsBalanced r.0) (ok-injective h7)
                      (put_sponsor-IsBalanced s state info.sender
                        (record i { lottery_deposit = deposit }) total same
                        (omega (
                          arith,
                          compute_sponsor_reward-deposit state (read_sponsor_info s info.sender) i
                              e5,
                          p.add_lem _ _ deposit e6,
                          p.add_lem _ _ total e7,
                        ))
                        b)

  sponsor_award-IsBalanced :
      (s s' : Store) (state : State) (amount : ℕ) (distribution : Option (List ℕ)) (msgs : List Msg)
      → state.total_tickets ≡ s.state.total_tickets
      → sponsor_award p s state amount distribution ≡ ok (s', msgs)
      → IsBalanced s
      → IsBalanced s'
  unfolding sponsor_award read_depositor_stats read_depositor_data
  sponsor_award-IsBalanced s s' state amount distribution msgs same h b =
      let fractions = or_default s.config.prize_distribution distribution in
      with_ok (check_distribution p fractions) _ h λ _ e1 h1.
        with_ok (fill_buckets p amount fractions state.prize_buckets) _ h1 λ buckets e2 h2.
          subst (λ (r : Store × List Msg). IsBalanced r.0) (ok-injective h2)
            (record {
              shares = b.shares;
              sponsors = b.sponsors;
              tickets = omega (arith, b.tickets, same);
              operators = b.operators;
              synced = b.synced;
            })

  -- A sponsorship that succeeds, as a deposit or as an award, keeps the books balanced.
  pub execute_sponsor-IsBalanced :
      (s s' : Store) (env : Env) (info : MessageInfo) (award : Option Bool)
      (distribution : Option (List ℕ)) (msgs : List Msg)
      → execute_sponsor p s env info award distribution ≡ ok (s', msgs)
      → IsBalanced s
      → IsBalanced s'
  unfolding execute_sponsor
  execute_sponsor-IsBalanced s s' env info award distribution msgs h b =
      let amount = amount_sent s.config.stable_denom info.funds in
      with_test (nat_beq amount 0) (lotto zero_sponsorship_amount) _ h λ _ h1.
        with_ok (compute_global_sponsor_reward p s.state s.pool env.block.block_height) _ h1
          λ state e2 h2.
            let same =
              compute_global_sponsor_reward-tickets s.state state s.pool env.block.block_height
                e2 in
            elim (Bool-cases (or_default false award)) [
              | inl at_once ↦
                  sponsor_award-IsBalanced s s' state amount distribution msgs same
                    (rw at_once at h2) b
              | inr to_anchor ↦
                  sponsor_deposit-IsBalanced s s' state env info amount distribution msgs same
                    (rw to_anchor at h2) b
            ]

  -- A withdrawal of a sponsorship that succeeds keeps the books balanced.
  pub execute_sponsor_withdraw-IsBalanced :
      (s s' : Store) (env : Env) (info : MessageInfo) (msgs : List Msg)
      → execute_sponsor_withdraw p s env info ≡ ok (s', msgs)
      → IsBalanced s
      → IsBalanced s'
  unfolding execute_sponsor_withdraw
  execute_sponsor_withdraw-IsBalanced s s' env info msgs h b =
      let i = read_sponsor_info s info.sender in
      let denom = s.config.stable_denom in
      with_ok (p.exchange_rate s.config.anchor_contract env.block.block_height) _ h λ rate e1 h1.
        with_test (nat_beq i.lottery_deposit 0) (lotto no_sponsor_lottery_deposit) _ h1 λ _ h2.
          with_ok (check_not_started s) _ h2 λ _ e3 h3.
            with_ok (compute_global_sponsor_reward p s.state s.pool env.block.block_height) _ h3
              λ state e4 h4. with_ok (compute_sponsor_reward p state i) _ h4 λ i1 e5 h5.
                with_ok (p.div_dec i1.lottery_deposit rate) _ h5 λ aust e6 h6.
                  with_ok (p.mul_dec aust rate) _ h6 λ value e7 h7.
                    with_ok (p.sub s.pool.total_sponsor_lottery_deposits i1.lottery_deposit) _ h7
                      λ total e8 h8. with_ok (deduct_tax p denom value) _ h8 λ amount e9 h9.
                        with_ok (deduct_tax p denom amount) _ h9 λ net e10 h10.
                          let same =
                            compute_global_sponsor_reward-tickets s.state state s.pool
                              env.block.block_height e4 in
                          subst (λ (r : Store × List Msg). IsBalanced r.0) (ok-injective h10)
                            (put_sponsor-IsBalanced s state info.sender
                              (record i1 { lottery_deposit = 0 }) total same
                              (omega (
                                arith,
                                compute_sponsor_reward-deposit state i i1 e5,
                                p.sub_lem _ _ total e8,
                              ))
                              b)
