-- ===== src/Lotto/Claims/Kept.antt =====
-- Which prizes are claimed, through the calls of the lotto (contracts/lotto/src/contract.rs).
use glow_contracts.Base.{
  ℕ, ◌≡◌, ◌∙◌, sym, ap, subst, Option, none, some, Bool, true, false, List, [], ◌∷◌, ok, with_ok,
  with_test, not, nat_beq, ltb, length, lotto, ok-injective, at_time, arith, inl, inr, Bool-cases,
  take, if◌then◌else◌, zero_sponsorship_amount, no_sponsor_lottery_deposit,
  insufficient_claimable_funds, insufficient_funds, invalid_lottery_execution_funds,
  lottery_not_ready, invalid_lottery_execution_tickets, insufficient_lottery_funds,
  invalid_lottery_prize_execution_funds, invalid_lottery_prize_execution,
  invalid_lottery_prize_execution_expired, pair_eq,
}
use glow_contracts.Dict.{Dict}
use glow_contracts.Platform.{Platform}
use glow_contracts.Tax.{deduct_tax}
use glow_contracts.Lotto.Types.{
  Store, State, Env, MessageInfo, Msg, Addr, PrizeInfo, LotteryInfo, Ticket,
}
use glow_contracts.Lotto.Storage.{
  read_sponsor_info, store_sponsor_info, or_default, read_depositor_info, store_depositor_info,
  store_lottery_info, read_lottery_info,
}
use glow_contracts.Lotto.Rewards.{compute_sponsor_reward, compute_global_sponsor_reward}
use glow_contracts.Lotto.Books.{store_depositor_info-Stored}
use glow_contracts.Lotto.Deposit.{amount_sent, check_not_started}
use glow_contracts.Lotto.Sponsor.{
  sponsor_deposit, sponsor_award, execute_sponsor, execute_sponsor_withdraw, check_distribution,
  fill_buckets,
}
use glow_contracts.Lotto.Unbonding.{execute_claim_unbonded, claim_unbonded_withdrawals, sum_buckets}
use glow_contracts.Lotto.Draw.{
  execute_lottery, no_funds, calculate_lottery_rand_round,
  calculate_value_of_aust_to_be_redeemed_for_lottery,
}
use glow_contracts.Lotto.Prize.{
  award_page, award_tickets, execute_prize, drawn_sequence, get_minimum_matches_for_winning_ticket,
  prefix, calculate_max_bound, range, close_lottery,
}
use glow_contracts.Lotto.Prize.Winners.{prize_of, award_tickets_lem}

-- The prizes that are claimed stay so.
abbrev pub KeepsClaims : Dict (ℕ × ℕ) PrizeInfo → Dict (ℕ × ℕ) PrizeInfo → Type 0
KeepsClaims d d' =
    (j : ℕ) (b : Addr) → (prize_of d (j, b)).claimed ≡ true → (prize_of d' (j, b)).claimed ≡ true

pub KeepsClaims-same : (s s' : Store) → s'.prizes ≡ s.prizes → KeepsClaims s.prizes s'.prizes
KeepsClaims-same s s' e j b h =
    ap (λ (d : Dict (ℕ × ℕ) PrizeInfo). (prize_of d (j, b)).claimed) e ∙ h

module _ (p : Platform) (s s' : Store) (env : Env) (info : MessageInfo) (msgs : List Msg) where
  sponsor_deposit-prizes :
      (state : State) (amount : ℕ) (distribution : Option (List ℕ))
      → sponsor_deposit p s state env info amount distribution ≡ ok (s', msgs)
      → s'.prizes ≡ s.prizes
  unfolding sponsor_deposit store_sponsor_info
  sponsor_deposit-prizes state amount (some d) h = ground arith
  sponsor_deposit-prizes state amount none h =
      with_ok (deduct_tax p s.config.stable_denom amount) _ h λ net e1 h1.
        with_ok (p.exchange_rate s.config.anchor_contract env.block.block_height) _ h1 λ rate e2 h2.
          with_ok (p.div_dec net rate) _ h2 λ aust e3 h3.
            with_ok (p.mul_dec aust rate) _ h3 λ value e4 h4.
              with_ok (compute_sponsor_reward p state (read_sponsor_info s info.sender)) _ h4
                λ i e5 h5. with_ok (p.add i.lottery_deposit value) _ h5 λ deposit e6 h6.
                  with_ok (p.add s.pool.total_sponsor_lottery_deposits value) _ h6
                    λ total e7 h7. sym (ap (λ (r : Store × List Msg). r.0.prizes) (ok-injective h7))

  sponsor_award-prizes :
      (state : State) (amount : ℕ) (distribution : Option (List ℕ))
      → sponsor_award p s state amount distribution ≡ ok (s', msgs)
      → s'.prizes ≡ s.prizes
  unfolding sponsor_award
  sponsor_award-prizes state amount distribution h =
      let fractions = or_default s.config.prize_distribution distribution in
      with_ok (check_distribution p fractions) _ h λ _ e1 h1.
        with_ok (fill_buckets p amount fractions state.prize_buckets) _ h1
          λ buckets e2 h2. sym (ap (λ (r : Store × List Msg). r.0.prizes) (ok-injective h2))

  pub execute_sponsor-prizes :
      (award : Option Bool) (distribution : Option (List ℕ))
      → execute_sponsor p s env info award distribution ≡ ok (s', msgs)
      → s'.prizes ≡ s.prizes
  unfolding execute_sponsor
  execute_sponsor-prizes award distribution h =
      let amount = amount_sent s.config.stable_denom info.funds in
      with_test (nat_beq amount 0) (lotto zero_sponsorship_amount) _ h λ _ h1.
        with_ok (compute_global_sponsor_reward p s.state s.pool env.block.block_height) _ h1
          λ state e2 h2. elim (Bool-cases (or_default false award)) [
            | inl at_once ↦ sponsor_award-prizes state amount distribution (rw at_once at h2)
            | inr to_anchor ↦ sponsor_deposit-prizes state amount distribution (rw to_anchor at h2)
          ]

  pub execute_sponsor_withdraw-prizes :
      execute_sponsor_withdraw p s env info ≡ ok (s', msgs) → s'.prizes ≡ s.prizes
  unfolding execute_sponsor_withdraw store_sponsor_info
  execute_sponsor_withdraw-prizes h =
      let i = read_sponsor_info s info.sender in
      let denom = s.config.stable_denom in
      with_ok (p.exchange_rate s.config.anchor_contract env.block.block_height) _ h λ rate e1 h1.
        with_test (nat_beq i.lottery_deposit 0) (lotto no_sponsor_lottery_deposit) _ h1 λ _ h2.
          with_ok (check_not_started s) _ h2 λ _ e3 h3.
            with_ok (compute_global_sponsor_reward p s.state s.pool env.block.block_height) _ h3
              λ state e4 h4. with_ok (compute_sponsor_reward p state i) _ h4 λ i1 e5 h5.
                with_ok (p.div_dec i1.lottery_deposit rate) _ h5 λ aust e6 h6.
                  with_ok (p.mul_dec aust rate) _ h6 λ value e7 h7.
                    with_ok (p.sub s.pool.total_sponsor_lottery_deposits i1.lottery_deposit) _ h7
                      λ total e8 h8. with_ok (deduct_tax p denom value) _ h8 λ amount e9 h9.
                        with_ok (deduct_tax p denom amount) _ h9 λ net e10 h10.
                          sym (ap (λ (r : Store × List Msg). r.0.prizes) (ok-injective h10))

  pub execute_claim_unbonded-prizes :
      execute_claim_unbonded p s env info ≡ ok (s', msgs) → s'.prizes ≡ s.prizes
  unfolding execute_claim_unbonded
  execute_claim_unbonded-prizes h =
      let i = read_depositor_info p s info.sender in
      let denom = s.config.stable_denom in
      with_ok (claim_unbonded_withdrawals p i env.block none) _ h λ x e1 h1.
        with_ok (check_not_started s) _ h1 λ _ e4 h4.
          with_test (nat_beq x.1 0) (lotto insufficient_claimable_funds) _ h4 λ _ h5.
            with_ok (deduct_tax p denom x.1) _ h5 λ net e6 h6.
              with_ok (p.bank_balance env.contract denom) _ h6 λ balance e7 h7.
                with_ok (sum_buckets p 0 s.state.prize_buckets) _ h7 λ reserved e8 h8.
                  with_ok (p.sub balance reserved) _ h8 λ spare e9 h9.
                    with_ok (p.to_uint128 spare) _ h9 λ available e10 h10.
                      with_test (ltb available x.1) (lotto (insufficient_funds x.1 spare)) _ h10
                        λ _ h11.
                          with_ok (store_depositor_info p s info.sender x.0 env.block.block_height)
                            _ h11
                            λ s1 e12 h12.
                              let stored =
                                store_depositor_info-Stored p s s1 info.sender x.0
                                  env.block.block_height e12 in
                              sym (ap (λ (r : Store × List Msg). r.0.prizes) (ok-injective h12))
                              ∙ ap (λ (t : Store). t.prizes) stored.frame

  pub execute_lottery-prizes : execute_lottery p s env info ≡ ok (s', msgs) → s'.prizes ≡ s.prizes
  unfolding execute_lottery store_lottery_info
  execute_lottery-prizes h =
      let c = s.config in
      let st = s.state in
      with_ok (p.addr_validate c.a_terra_contract) _ h λ token e1 h1.
        with_ok (p.token_balance token env.contract) _ h1 λ balance e2 h2.
          with_ok (p.exchange_rate c.anchor_contract env.block.block_height) _ h2 λ rate e3 h3.
            with_test (not (no_funds info.funds)) (lotto invalid_lottery_execution_funds) _ h3
              λ _ h4.
                with_test (not (p.is_expired st.next_lottery_time env.block))
                  (lotto (lottery_not_ready st.next_lottery_time)) _ h4
                  λ _ h5.
                    with_test (nat_beq st.total_tickets 0) (lotto invalid_lottery_execution_tickets)
                      _ h5
                      λ _ h6.
                        with_ok (p.add_duration (at_time env.block.block_time) c.block_time) _ h6
                          λ exec e7 h7. with_ok (check_not_started s) _ h7 λ _ e8 h8.
                            with_ok (calculate_lottery_rand_round p env c.round_delta) _ h8
                              λ round e9 h9.
                                with_ok
                                  (calculate_value_of_aust_to_be_redeemed_for_lottery p st s.pool c
                                    balance rate)
                                  _ h9
                                  λ redeemed e10 h10.
                                    with_ok
                                      (deduct_tax p c.stable_denom redeemed.aust_to_redeem_value) _
                                      h10
                                      λ net e11 h11.
                                        with_test (nat_beq net 0) (lotto insufficient_lottery_funds)
                                          _ h11
                                          λ _ h12.
                                            with_ok
                                              (fill_buckets p net c.prize_distribution
                                                st.prize_buckets)
                                              _ h12
                                              λ buckets e13 h13.
                                                with_ok
                                                  (p.sub s.pool.total_user_aust
                                                    redeemed.user_aust_to_redeem)
                                                  _ h13
                                                  λ aust e14 h14. sym (
                                                    ap (λ (r : Store × List Msg). r.0.prizes)
                                                      (ok-injective h14))

award_page-KeepsClaims :
    (s : Store) (lottery lottery' : LotteryInfo) (page : Dict Ticket (List Addr)) (bound : Ticket)
    (prizes : Dict (ℕ × ℕ) PrizeInfo)
    → award_page s lottery page bound ≡ ok (lottery', prizes)
    → KeepsClaims s.prizes prizes
unfolding award_page
award_page-KeepsClaims s lottery lottery' [] bound prizes h =
    subst (λ (r : LotteryInfo × Dict (ℕ × ℕ) PrizeInfo). KeepsClaims s.prizes r.1) (ok-injective h)
      (λ j b k. k)
award_page-KeepsClaims s lottery lottery' ((k, v) ∷ page) bound prizes h =
    with_ok
      (award_tickets s.state.current_lottery lottery.sequence ((k, v) ∷ page) lottery.number_winners
        s.prizes)
      _ h
      λ r e h1.
        let awarded =
          award_tickets_lem s.state.current_lottery lottery.sequence ((k, v) ∷ page)
            lottery.number_winners r.0 s.prizes r.1 e in
        subst (λ (x : LotteryInfo × Dict (ℕ × ℕ) PrizeInfo). KeepsClaims s.prizes x.1)
          (ok-injective h1) (λ j b c. awarded.claimed_lem j b ∙ c)

-- An award of prizes keeps the claims.
pub execute_prize-KeepsClaims :
    (p : Platform) (s s' : Store) (env : Env) (info : MessageInfo) (limit : Option ℕ)
    (msgs : List Msg)
    → execute_prize p s env info limit ≡ ok (s', msgs)
    → KeepsClaims s.prizes s'.prizes
unfolding execute_prize store_lottery_info
execute_prize-KeepsClaims p s s' env info limit msgs h =
    let lottery0 = read_lottery_info s s.state.current_lottery in
    with_test (not (no_funds info.funds)) (lotto invalid_lottery_prize_execution_funds) _ h λ _ h1.
      with_test (nat_beq lottery0.rand_round 0) (lotto invalid_lottery_prize_execution) _ h1 λ _ h2.
        with_test (not (p.is_expired s.state.next_lottery_exec_time env.block))
          (lotto invalid_lottery_prize_execution_expired) _ h2
          λ _ h3. with_ok (drawn_sequence p s.config lottery0) _ h3 λ sequence e4 h4.
            with_ok (get_minimum_matches_for_winning_ticket s.config.prize_distribution) _ h4
              λ minimum e5 h5. with_ok (prefix minimum sequence) _ h5 λ start e6 h6.
                let from = if nat_beq (length lottery0.page) 0 then start else lottery0.page in
                with_ok (calculate_max_bound from minimum) _ h6 λ bound e7 h7.
                  let page = take (or_default 50 limit) (range true from bound s.tickets) in
                  let lottery1 : LotteryInfo = record lottery0 { sequence = sequence } in
                  with_ok (award_page s lottery1 page bound) _ h7 λ r e8 h8.
                    with_ok
                      (if r.0.awarded
                        then close_lottery p s.config env s.state r.0
                        else ok (s.state, r.0))
                      _ h8
                      λ x e9 h9.
                        subst (λ (y : Store × List Msg). KeepsClaims s.prizes y.0.prizes)
                          (ok-injective h9)
                          (award_page-KeepsClaims s lottery1 r.0 page bound r.1 e8)
