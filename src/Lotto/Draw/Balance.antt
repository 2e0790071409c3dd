-- ===== src/Lotto/Draw/Balance.antt =====
-- The draw and the balance of the books (execute_lottery).
use glow_contracts.Base.{
  List, ok, with_ok, with_test, not, nat_beq, lotto, ok-injective, subst, at_time, ◌≡◌,
  invalid_lottery_execution_funds, lottery_not_ready, invalid_lottery_execution_tickets,
  insufficient_lottery_funds,
}
use glow_contracts.Platform.{Platform}
use glow_contracts.Tax.{deduct_tax}
use glow_contracts.Lotto.Types.{Store, Env, MessageInfo, Msg}
use glow_contracts.Lotto.Storage.{read_depositor_stats, read_depositor_data, store_lottery_info}
use glow_contracts.Lotto.Books.{IsBalanced}
use glow_contracts.Lotto.Deposit.{check_not_started}
use glow_contracts.Lotto.Sponsor.{fill_buckets}
use glow_contracts.Lotto.Draw.{
  execute_lottery, no_funds, calculate_lottery_rand_round,
  calculate_value_of_aust_to_be_redeemed_for_lottery,
}

module _ (p : Platform) where
  pub execute_lottery-IsBalanced :
      (s s' : Store) (env : Env) (info : MessageInfo) (msgs : List Msg)
      → execute_lottery p s env info ≡ ok (s', msgs)
      → IsBalanced s
      → IsBalanced s'
  unfolding execute_lottery store_lottery_info read_depositor_stats read_depositor_data
  execute_lottery-IsBalanced s s' env info msgs h b =
      let c = s.config in
      let st = s.state in
      with_ok (p.addr_validate c.a_terra_contract) _ h λ token e1 h1.
        with_ok (p.token_balance token env.contract) _ h1 λ balance e2 h2.
          with_ok (p.exchange_rate c.anchor_contract env.block.block_height) _ h2 λ rate e3 h3.
            with_test (not (no_funds info.funds)) (lotto invalid_lottery_execution_funds) _ h3
              λ _ h4.
                with_test (not (p.is_expired st.next_lottery_time env.block))
                  (lotto (lottery_not_ready st.next_lottery_time)) _ h4
                  λ _ h5.
                    with_test (nat_beq st.total_tickets 0) (lotto invalid_lottery_execution_tickets)
                      _ h5
                      λ _ h6.
                        with_ok (p.add_duration (at_time env.block.block_time) c.block_time) _ h6
                          λ exec e7 h7. with_ok (check_not_started s) _ h7 λ _ e8 h8.
                            with_ok (calculate_lottery_rand_round p env c.round_delta) _ h8
                              λ round e9 h9.
                                with_ok
                                  (calculate_value_of_aust_to_be_redeemed_for_lottery p st s.pool c
                                    balance rate)
                                  _ h9
                                  λ redeemed e10 h10.
                                    with_ok
                                      (deduct_tax p c.stable_denom redeemed.aust_to_redeem_value) _
                                      h10
                                      λ net e11 h11.
                                        with_test (nat_beq net 0) (lotto insufficient_lottery_funds)
                                          _ h11
                                          λ _ h12.
                                            with_ok
                                              (fill_buckets p net c.prize_distribution
                                                st.prize_buckets)
                                              _ h12
                                              λ buckets e13 h13.
                                                with_ok
                                                  (p.sub s.pool.total_user_aust
                                                    redeemed.user_aust_to_redeem)
                                                  _ h13
                                                  λ aust e14 h14.
                                                    subst (λ (r : Store × List Msg). IsBalanced r.0)
                                                      (ok-injective h14)
                                                      (record {
                                                        shares = b.shares;
                                                        sponsors = b.sponsors;
                                                        tickets = b.tickets;
                                                        operators = b.operators;
                                                        synced = b.synced;
                                                      })
