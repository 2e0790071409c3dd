-- ===== src/Lotto/Withdraw/Accounting.antt =====
-- What a withdrawal does to the books.
use glow_contracts.Base.{
  ℕ, ◌+◌, ◌-◌, ◌≤◌, ◌≡◌, ◌∙◌, sym, ap, Option, List, ◌∷◌, ok, arith, length, take, if◌then◌else◌,
  [], ◌++◌, with_ok, with_test, subst, ok-injective, length-drop, nat_beq, lotto, ltb, ltb_false→le,
  Bool, true, false, no_depositor_savings_aust_to_withdraw, withdrawing_too_many_tickets,
}
use glow_contracts.Platform.{Platform}
use glow_contracts.Tax.{deduct_tax}
use glow_contracts.Lotto.Types.{
  Store, State, Pool, Config, DepositorInfo, Addr, Env, MessageInfo, Msg, redeem_stable,
}
use glow_contracts.Lotto.Storage.{
  read_depositor_info, read_depositor_stats, store_depositor_info, operator_registered,
  read_depositor_data, read_operator_info,
}
use glow_contracts.Lotto.Storage.Laws.{AreHex, read-store_depositor_info}
use glow_contracts.Lotto.Storage.Hex.{AreHex-drop, read_depositor_info-AreHex}
use glow_contracts.Lotto.Operators.Shares.{operator_shares}
use glow_contracts.Lotto.Books.{
  user_shares, user_tickets, IsSynced, Stored, store_depositor_info-Stored,
}
use glow_contracts.Lotto.Deposit.{check_not_started, decimal_from_ratio_or_one}
use glow_contracts.Lotto.Deposit.Accounting.{length-read_tickets}
use glow_contracts.Lotto.Withdraw.{
  check_amount, shares_to_withdraw, value_to_withdraw, tickets_to_withdraw, release_tickets,
  shrink_operator, debit, pay_out, is_instant, execute_withdraw,
}
use glow_contracts.Lotto.Withdraw.Parts.{
  release_tickets-frame, Shrunk, shrink_operator-Shrunk, Debited, debit-Debited, Paid, pay_out-Paid,
  operated,
}
use glow_contracts.Lotto.Withdraw.Effects.{Settled, Withdrawn}

two_frames :
    (s s1 s2 : Store)
    → s1 ≡ record s { tickets = s1.tickets }
    → s2 ≡ record s1 { operators = s2.operators }
    → s2 ≡ record s { tickets = s1.tickets; operators = s2.operators }
two_frames s s1 s2 f g = g ∙ ap (λ (t : Store). record t { operators = s2.operators }) f

Paid-kept :
    (p : Platform) (config : Config) (env : Env) (a : Addr) (b : Bool) (amount : ℕ)
    (i i' : DepositorInfo) (state state' : State) (msgs : List Msg)
    → Paid p config env a b amount i i' state state' msgs
    → (i'.shares ≡ i.shares)
      × (i'.tickets ≡ i.tickets)
      × (state'.total_tickets ≡ state.total_tickets)
Paid-kept p config env a true amount i i' state state' msgs h = (
  ap (λ (x : DepositorInfo). x.shares) h.6,
  ap (λ (x : DepositorInfo). x.tickets) h.6,
  ap (λ (x : State). x.total_tickets) h.7,
)
Paid-kept p config env a false amount i i' state state' msgs h = (
  ap (λ (x : DepositorInfo). x.shares) h.0,
  ap (λ (x : DepositorInfo). x.tickets) h.0,
  ap (λ (x : State). x.total_tickets) h.1,
)

module _ (p : Platform) where
  tickets_to_withdraw-le :
      (config : Config) (pool : Pool) (i : DepositorInfo) (rate shares aust n : ℕ)
      → tickets_to_withdraw p config pool i rate shares aust ≡ ok n
      → n ≤ length i.tickets
  unfolding tickets_to_withdraw
  tickets_to_withdraw-le config pool i rate shares aust n h =
      with_ok (p.sub pool.total_user_aust aust) _ h λ a e1 h1.
        with_ok (p.sub i.shares shares) _ h1 λ b e2 h2.
          with_ok (p.sub pool.total_user_shares shares) _ h2 λ c e3 h3.
            with_ok (decimal_from_ratio_or_one p b c) _ h3 λ r e4 h4.
              with_ok (p.mul_dec a r) _ h4 λ x e5 h5. with_ok (p.mul_dec x rate) _ h5 λ y e6 h6.
                with_ok (p.dec_from_uint config.ticket_price) _ h6 λ z e7 h7.
                  with_ok (p.div_dec y z) _ h7 λ v e8 h8. with_ok (p.to_uint128 v) _ h8 λ w e9 h9.
                    let count = length i.tickets in
                    with_test (ltb count (count - w))
                      (lotto (withdrawing_too_many_tickets (count - w) count)) _ h9
                      λ few h10.
                        subst (λ (m : ℕ). m ≤ length i.tickets) (ok-injective h10)
                          (ltb_false→le _ _ few)

  Paid-Settled :
      (config : Config) (env : Env) (a : Addr) (b : Bool) (amount : ℕ) (i i' base : DepositorInfo)
      (state state' : State) (reserve : ℕ) (msgs : List Msg)
      → Paid p config env a b amount i i' state state' msgs
      → i ≡ base
      → state.total_reserve ≡ reserve
      → Settled p config env a b amount base i' reserve state'.total_reserve msgs
  Paid-Settled config env a true amount i i' base state state' reserve msgs h e r = (
    h.0,
    h.1,
    h.2,
    h.3,
    h.4,
    h.5,
    h.6 ∙ e,
    ap (λ (x : State). x.total_reserve) h.7 ∙ ap (λ n. n + h.0) r,
    h.8,
  )
  Paid-Settled config env a false amount i i' base state state' reserve msgs h e r = (
    h.0
        ∙ ap
            (λ (x : DepositorInfo). record x {
              unbonding_info =
                  x.unbonding_info
                  ++ record {
                    amount = amount;
                    release_at = p.after config.unbonding_period env.block;
                  }
                    ∷ [];
            })
            e,
    ap (λ (x : State). x.total_reserve) h.1 ∙ r,
    h.2,
  )

  module _ (s s1 s2 s4 : Store) (info : MessageInfo) (i3 i4 : DepositorInfo)
      (state2 state3 state4 : State) (pool2 pool3 : Pool) (shares aust count : ℕ)
      (freed : s1 ≡ record s { tickets = s1.tickets })
      (shrunk : Shrunk p s1 s2 s.state state2 s.pool pool2
        (read_depositor_info p s info.sender)
        shares)
      (debited : Debited p
        (read_depositor_info p s info.sender)
        i3
        pool2
        pool3
        state2
        state3
        shares
        aust
        count)
      (kept : (i4.shares ≡ i3.shares)
        × (i4.tickets ≡ i3.tickets)
        × (state4.total_tickets ≡ state3.total_tickets))
      (stored : Stored s2 s4 info.sender i4) (height : ℕ)
      (store_run : store_depositor_info p s2 info.sender i4 height ≡ ok s4) where
    framed : s2 ≡ record s { tickets = s1.tickets; operators = s2.operators }
    framed = two_frames s s1 s2 freed shrunk.frame

    withdraw_holds :
        (b : Addr)
        → read_depositor_info p s4 b
          ≡ (if nat_beq info.sender b then i4 else read_depositor_info p s b)
    unfolding read_depositor_info read_depositor_data read_depositor_stats
    withdraw_holds b =
        let own = (read_depositor_info p s info.sender).tickets in
        let hex =
          subst AreHex (sym (kept.1 ∙ debited.info_tickets))
            (AreHex-drop count own (read_depositor_info-AreHex p s info.sender)) in
        read-store_depositor_info p s2 s4 info.sender b i4 height hex store_run
        ∙ ap (λ (x : Store). if nat_beq info.sender b then i4 else read_depositor_info p x b) framed

    withdraw_lost :
        (b : Addr)
        → (read_operator_info s4 b).shares
            + (if nat_beq (read_depositor_info p s info.sender).operator_addr b
                then operated (operator_registered (read_depositor_info p s info.sender)) shares
                else 0)
          ≡ (read_operator_info s b).shares
    unfolding read_operator_info
    withdraw_lost b = omega (
      arith,
      shrunk.lost b,
      ap (λ (x : Store). (read_operator_info x b).shares) stored.frame,
      ap (λ (x : Store). (read_operator_info x b).shares) freed,
    )

    withdraw_users : user_shares s4 + shares ≡ user_shares s
    unfolding read_depositor_info read_depositor_stats
    withdraw_users = omega (
      arith,
      stored.shares_lem,
      ap user_shares framed,
      ap (λ (x : Store). (read_depositor_stats x info.sender).shares) framed,
      debited.info_shares,
      kept.0,
    )

    withdraw_tickets :
        count ≤ length (read_depositor_info p s info.sender).tickets
        → IsSynced s
        → user_tickets s4 + count ≡ user_tickets s
    unfolding read_depositor_stats
    withdraw_tickets few e = omega (
      arith,
      stored.tickets_lem,
      ap user_tickets framed,
      ap (λ (x : Store). (read_depositor_stats x info.sender).num_tickets) framed,
      ap length (kept.1 ∙ debited.info_tickets),
      length-drop count (read_depositor_info p s info.sender).tickets,
      length-read_tickets p s info.sender,
      e info.sender,
    )

    withdraw_operators :
        operator_shares s4
          + operated (operator_registered (read_depositor_info p s info.sender)) shares
        ≡ operator_shares s
    withdraw_operators =
        omega (arith, shrunk.shares_lem, ap operator_shares stored.frame, ap operator_shares freed)

    withdraw-IsSynced : IsSynced s → IsSynced s4
    unfolding read_depositor_stats read_depositor_data
    withdraw-IsSynced h = stored.synced (subst IsSynced (sym framed) h)

    withdrawn :
        (env : Env) (asked : Option ℕ) (instant : Option Bool) (rate value amount : ℕ)
        (sent : List Msg) (coin redeemed : ℕ)
        → p.exchange_rate s.config.anchor_contract env.block.block_height ≡ ok rate
        → shares_to_withdraw p s.pool (read_depositor_info p s info.sender) rate asked ≡ ok shares
        → value_to_withdraw p s.pool (read_depositor_info p s info.sender) rate shares
          ≡ ok (aust, value)
        → tickets_to_withdraw p s.config s.pool
            (read_depositor_info p s info.sender)
            rate
            shares
            aust
          ≡ ok count
        → p.to_uint128 value ≡ ok coin
        → deduct_tax p s.config.stable_denom coin ≡ ok amount
        → p.to_uint128 aust ≡ ok redeemed
        → Paid p s.config env info.sender (is_instant p instant) amount i3 i4 state3 state4 sent
        → Withdrawn p s
            (record s4 { state = state4; pool = pool3 })
            env
            info
            asked
            instant
            (redeem_stable s.config.a_terra_contract s.config.anchor_contract redeemed ∷ sent)
    unfolding read_depositor_stats read_depositor_data read_depositor_info read_operator_info
    withdrawn env asked instant rate value amount sent coin redeemed e1 e2 e3 e4 e6 e5 e7 paid =
        record {
          rate = rate;
          queried = e1;
          shares = shares;
          chosen = e2;
          aust = aust;
          value = value;
          worth = e3;
          count = count;
          unpaid = e4;
          amount = amount;
          taxed =
              ap (λ n. deduct_tax p s.config.stable_denom n) (sym (p.to_uint128_lem value coin e6))
              ∙ e5;
          enough = omega (arith, debited.info_shares);
          config_lem =
              ap (λ (x : Store). x.config) stored.frame ∙ ap (λ (x : Store). x.config) framed;
          sponsors_lem =
              ap (λ (x : Store). x.sponsors) stored.frame ∙ ap (λ (x : Store). x.sponsors) framed;
          prizes_lem =
              ap (λ (x : Store). x.prizes) stored.frame ∙ ap (λ (x : Store). x.prizes) framed;
          pool_shares =
              debited.pool_shares ∙ ap (λ (x : Pool). x.total_user_shares) shrunk.pool_lem;
          pool_aust = debited.pool_aust ∙ ap (λ (x : Pool). x.total_user_aust) shrunk.pool_lem;
          pool_sponsors =
              debited.pool_sponsors
              ∙ ap (λ (x : Pool). x.total_sponsor_lottery_deposits) shrunk.pool_lem;
          users = withdraw_users;
          tickets_state = omega (arith, kept.2, debited.tickets, shrunk.tickets);
          tickets_users = withdraw_tickets (
              tickets_to_withdraw-le s.config s.pool (read_depositor_info p s info.sender) rate
                shares aust count e4);
          left_operator = withdraw_operators;
          left_pool = omega (arith, debited.pool_operators, shrunk.counted);
          synced = withdraw-IsSynced;
          lost = withdraw_lost;
          left = i4;
          holds = withdraw_holds;
          sent = sent;
          settled =
              Paid-Settled s.config env info.sender (is_instant p instant) amount i3 i4 _ state3
                state4 s.state.total_reserve sent paid debited.info
                (debited.reserve ∙ shrunk.reserve);
          messages =
              ap (λ n. redeem_stable s.config.a_terra_contract s.config.anchor_contract n ∷ sent)
                (p.to_uint128_lem aust redeemed e7);
        }

  -- A withdrawal that succeeds takes the chosen shares, at most the sender's, from the sender and
  -- the pool, and from the sender's operator and the operators' sum if the sender has one, but
  -- from no other operator. It takes their aUST from the pool and redeems it first, and takes the
  -- tickets that are not paid for any more off the front of the sender's tickets and from both
  -- counts. An instant one then sends the sender the amount after tax less the fee, taxed again,
  -- and adds the fee to the reserve; any other adds a claim on the amount after tax to the
  -- sender's, to be released after the unbonding period, and sends nothing more. No other
  -- depositor changes, nor do the configuration, the sponsors and the prizes.
  pub execute_withdraw-Withdrawn :
      (s s' : Store) (env : Env) (info : MessageInfo) (asked : Option ℕ) (instant : Option Bool)
      (msgs : List Msg)
      → execute_withdraw p s env info asked instant ≡ ok (s', msgs)
      → Withdrawn p s s' env info asked instant msgs
  unfolding execute_withdraw
  execute_withdraw-Withdrawn s s' env info asked instant msgs h =
      let a = info.sender in
      let i = read_depositor_info p s a in
      let height = env.block.block_height in
      with_ok (p.exchange_rate s.config.anchor_contract height) _ h λ rate e1 h1.
        with_test (nat_beq i.shares 0) (lotto no_depositor_savings_aust_to_withdraw) _ h1 λ _ h2.
          with_ok (check_amount p asked) _ h2 λ _ _ h3. with_ok (check_not_started s) _ h3 λ _ _ h4.
            with_ok (shares_to_withdraw p s.pool i rate asked) _ h4 λ shares e2 h5.
              with_ok (value_to_withdraw p s.pool i rate shares) _ h5 λ v e3 h6.
                with_ok (tickets_to_withdraw p s.config s.pool i rate shares v.0) _ h6 λ n e4 h7.
                  with_ok (release_tickets a (take n i.tickets) s) _ h7 λ s1 e5 h8.
                    with_ok (shrink_operator p s1 s.state s.pool i shares height) _ h8 λ x e6 h9.
                      with_ok (debit p i x.1.1 x.1.0 shares v.0 n) _ h9 λ y e7 h10.
                        with_ok (p.to_uint128 v.1) _ h10 λ coin e11 h14.
                          with_ok (deduct_tax p s.config.stable_denom coin) _ h14 λ amount e8 h15.
                            with_ok (p.to_uint128 v.0) _ h15 λ redeemed e12 h11.
                              let b = is_instant p instant in
                              with_ok (pay_out p s.config env a b amount y.0 y.1.1) _ h11
                                λ z e9 h12.
                                  with_ok (store_depositor_info p x.0 a z.0 height) _ h12
                                    λ s4 e10 h13.
                                      let shrunk =
                                        shrink_operator-Shrunk p s1 x.0 s.state x.1.0 s.pool x.1.1 i
                                          shares height e6 in
                                      let debited =
                                        debit-Debited p i y.0 x.1.1 y.1.0 x.1.0 y.1.1 shares v.0 n
                                          e7 in
                                      let paid =
                                        pay_out-Paid p s.config env a b amount y.0 z.0 y.1.1 z.1.0
                                          z.1.1 e9 in
                                      let kept =
                                        Paid-kept p s.config env a b amount y.0 z.0 y.1.1 z.1.0
                                          z.1.1 paid in
                                      subst
                                        (λ (r : Store × List Msg).
                                          Withdrawn p s r.0 env info asked instant r.1)
                                        (ok-injective h13)
                                        (withdrawn s s1 x.0 s4 info y.0 z.0 x.1.0 y.1.1 z.1.0 x.1.1
                                          y.1.0 shares v.0 n
                                          (release_tickets-frame a (take n i.tickets) s s1 e5)
                                          shrunk debited kept
                                          (store_depositor_info-Stored p x.0 s4 a z.0 height e10)
                                          height e10 env asked instant rate v.1 amount z.1.1 coin
                                          redeemed e1 e2 e3 e4 e11 e8 e12 paid)
