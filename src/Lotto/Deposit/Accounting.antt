-- ===== src/Lotto/Deposit/Accounting.antt =====
-- What a deposit does to the books.
use glow_contracts.Base.{
  ℕ, Bool, ◌+◌, ◌≡◌, ◌∙◌, refl, sym, ap, Option, none, List, [], ◌∷◌, ◌++◌, ok, arith, length,
  length-append, length-map, with_ok, ok-injective, subst, nat_beq, if◌then◌else◌, some,
}
use glow_contracts.Platform.{Platform}
use glow_contracts.Tax.{deduct_tax}
use glow_contracts.Lotto.Types.{
  Store, State, Pool, DepositorInfo, Addr, Env, MessageInfo, Msg, deposit_stable,
}
use glow_contracts.Lotto.Storage.{
  read_depositor_info, read_depositor_stats, store_depositor_info, operator_registered,
  vec_binary_tickets_to_vec_string_tickets, read_depositor_data, read_operator_info,
}
use glow_contracts.Lotto.Storage.Hex.{read-store_grown, read_depositor_info-AreHex}
use glow_contracts.Lotto.Rewards.{compute_global_operator_reward}
use glow_contracts.Lotto.Tickets.{handle_depositor_ticket_updates}
use glow_contracts.Lotto.Tickets.Purchase.{Purchase, handle_depositor_ticket_updates_lem}
use glow_contracts.Lotto.Operators.{handle_depositor_operator_updates}
use glow_contracts.Lotto.Operators.Shares.{
  Updated, uncounted, joined, operator_shares, handle_depositor_operator_updates-Updated,
}
use glow_contracts.Lotto.Books.{
  user_shares, user_tickets, IsSynced, Stored, stored_tickets, store_depositor_info-Stored,
}
use glow_contracts.Lotto.Deposit.{
  amount_sent, check_not_started, depositor_of, zero_amount, minted, credit, deposit,
}
use glow_contracts.Lotto.Deposit.Effects.{IsDepositor, info_of, gain, Deposited}

-- The tickets and operators of a storage may have changed, and nothing else.
two_frames :
    (s s1 s2 : Store)
    → s1 ≡ record s { tickets = s1.tickets }
    → s2 ≡ record s1 { operators = s2.operators }
    → s2 ≡ record s { tickets = s1.tickets; operators = s2.operators }
two_frames s s1 s2 f g = g ∙ ap (λ (t : Store). record t { operators = s2.operators }) f

depositor_of-IsDepositor :
    (p : Platform) (info : MessageInfo) (recipient : Option Addr) (a : Addr)
    → depositor_of p info recipient ≡ ok a
    → IsDepositor p info recipient a
unfolding depositor_of
depositor_of-IsDepositor p info none a h = sym (ok-injective h)
depositor_of-IsDepositor p info (some recipient) a h = h

module _ (p : Platform) where
  compute_global_operator_reward-tickets :
      (s s' : State) (pool : Pool) (h : ℕ)
      → compute_global_operator_reward p s pool h ≡ ok s'
      → s'.total_tickets ≡ s.total_tickets
  unfolding compute_global_operator_reward
  compute_global_operator_reward-tickets s s' pool h e = ground arith

  -- The depositor and the pool after shares are credited.
  pub record Credited (i i' : DepositorInfo) (pool pool' : Pool) (aust shares : ℕ) : Type 0 where
    pub info : i' ≡ record i { shares = i.shares + shares }
    pub pool_lem : pool' ≡ record pool {
      total_user_shares = pool.total_user_shares + shares;
      total_user_aust = pool.total_user_aust + aust;
    }

  pub credit-Credited :
      (i i' : DepositorInfo) (pool pool' : Pool) (aust shares : ℕ)
      → credit p i pool aust shares ≡ ok (i', pool')
      → Credited i i' pool pool' aust shares
  unfolding credit
  credit-Credited i i' pool pool' aust shares h = grind (arith, p.add_lem)

  pub length-read_tickets :
      (s : Store) (a : Addr) → length (read_depositor_info p s a).tickets ≡ stored_tickets s a
  unfolding read_depositor_info vec_binary_tickets_to_vec_string_tickets
  length-read_tickets s a = length-map (read_depositor_data s a).vec_binary_tickets p.hex_encode

  module _ (s s1 s2 s3 : Store) (a : Addr) (i1 i2 i3 : DepositorInfo) (pool2 pool3 : Pool)
      (aust shares rate new : ℕ) (operator : Option Addr)
      (bought : Purchase p s.config s.pool a rate shares aust s s1 (info_of p s a) i1 new)
      (updated : Updated p s1 s2 s.pool pool2 i1 i2 shares operator)
      (credited : Credited i2 i3 pool2 pool3 aust shares) (stored : Stored s2 s3 a i3) (height : ℕ)
      (store_run : store_depositor_info p s2 a i3 height ≡ ok s3) where
    framed : s2 ≡ record s { tickets = s1.tickets; operators = s2.operators }
    framed = two_frames s s1 s2 bought.frame updated.frame

    credited_shares : i3.shares ≡ (info_of p s a).shares + shares
    credited_shares =
        ap (λ (x : DepositorInfo). x.shares) credited.info
        ∙ ap (λ (x : DepositorInfo). x.shares + shares)
            (updated.info
              ∙ ap (λ (x : DepositorInfo). record x { operator_addr = i2.operator_addr })
                  bought.info)

    credited_tickets : i3.tickets ≡ (info_of p s a).tickets ++ bought.bought
    credited_tickets =
        ap (λ (x : DepositorInfo). x.tickets) credited.info
        ∙ ap (λ (x : DepositorInfo). x.tickets) updated.info
        ∙ ap (λ (x : DepositorInfo). x.tickets) bought.info

    deposit_credited :
        (b : Addr)
        → info_of p s3 b ≡ (
            if nat_beq a b
            then record (info_of p s a) {
              shares = (info_of p s a).shares + shares;
              tickets = (info_of p s a).tickets ++ bought.bought;
              operator_addr = i2.operator_addr;
            }
            else info_of p s b)
    unfolding read_depositor_info read_depositor_data read_depositor_stats
    deposit_credited b =
        let whole =
          credited.info
          ∙ ap (λ (x : DepositorInfo). record x { shares = x.shares + shares })
              (updated.info
                ∙ ap (λ (x : DepositorInfo). record x { operator_addr = i2.operator_addr })
                    bought.info) in
        read-store_grown p s2 s3 a b i3 (info_of p s a).tickets bought.bought height
          (read_depositor_info-AreHex p s a) bought.valid credited_tickets store_run
        ∙ ap (λ (x : DepositorInfo). if nat_beq a b then x else info_of p s2 b) whole
        ∙ ap
            (λ (x : Store).
              if nat_beq a b
              then record (info_of p s a) {
                shares = (info_of p s a).shares + shares;
                tickets = (info_of p s a).tickets ++ bought.bought;
                operator_addr = i2.operator_addr;
              }
              else info_of p x b)
            framed

    registered_same : operator_registered i1 ≡ operator_registered (info_of p s a)
    unfolding operator_registered
    registered_same = ap operator_registered bought.info

    deposit_pool_operators :
        pool3.total_operator_shares
        ≡ s.pool.total_operator_shares
          + joined (operator_registered (info_of p s a)) operator shares
    deposit_pool_operators =
        ap (λ (x : Pool). x.total_operator_shares) credited.pool_lem
        ∙ updated.counted
        ∙ ap (λ (x : Bool). s.pool.total_operator_shares + joined x operator shares) registered_same

    deposit_gained :
        (b : Addr)
        → (read_operator_info s3 b).shares
          ≡ (read_operator_info s b).shares
            + gain (info_of p s a) i2.operator_addr b shares operator
    unfolding read_operator_info operator_registered
    deposit_gained b =
        let more = λ (x : Store) (y : DepositorInfo).
          (read_operator_info x b).shares + gain y i2.operator_addr b shares operator in
        ap (λ (x : Store). (read_operator_info x b).shares) stored.frame
        ∙ updated.gained b
        ∙ ap (λ (x : Store). more x i1) bought.frame
        ∙ ap (λ (x : DepositorInfo). more s x) bought.info

    deposit_users : user_shares s3 ≡ user_shares s + shares
    unfolding read_depositor_info read_depositor_stats
    deposit_users = omega (
      arith,
      stored.shares_lem,
      ap user_shares framed,
      ap (λ (x : Store). (read_depositor_stats x a).shares) framed,
      credited_shares,
    )

    deposit_tickets : IsSynced s → user_tickets s3 ≡ user_tickets s + new
    unfolding read_depositor_stats
    deposit_tickets e = omega (
      arith,
      stored.tickets_lem,
      ap user_tickets framed,
      ap (λ (x : Store). (read_depositor_stats x a).num_tickets) framed,
      ap length credited_tickets,
      length-append (info_of p s a).tickets bought.bought,
      bought.counted,
      e a,
      length-read_tickets s a,
    )

    deposit_gap :
        operator_shares s3 + s.pool.total_operator_shares
        ≡ operator_shares s
          + pool3.total_operator_shares
          + uncounted (operator_registered (info_of p s a)) (info_of p s a).shares operator
    unfolding operator_registered
    deposit_gap = omega (
      arith,
      updated.gap,
      ap operator_shares stored.frame,
      ap operator_shares bought.frame,
      ap (λ (x : Pool). x.total_operator_shares) credited.pool_lem,
      ap (λ (x : DepositorInfo). uncounted (operator_registered x) x.shares operator) bought.info,
    )

    deposit-IsSynced : IsSynced s → IsSynced s3
    unfolding read_depositor_stats read_depositor_data
    deposit-IsSynced h = stored.synced (subst IsSynced (sym framed) h)

    deposited :
        (env : Env) (info : MessageInfo) (recipient : Option Addr) (state1 : State) (t net : ℕ)
        → depositor_of p info recipient ≡ ok a
        → p.exchange_rate s.config.anchor_contract env.block.block_height ≡ ok rate
        → deduct_tax p s.config.stable_denom (amount_sent s.config.stable_denom info.funds) ≡ ok net
        → minted p s.pool net rate ≡ ok (aust, shares)
        → t ≡ s.state.total_tickets + new
        → Deposited p s
            (record s3 { state = record state1 { total_tickets = t }; pool = pool3 })
            env
            info
            recipient
            operator
            (deposit_stable s.config.anchor_contract
                (record { denom = s.config.stable_denom; coin_amount = net })
              ∷ [])
    unfolding read_depositor_stats read_depositor_data read_depositor_info read_operator_info
    deposited env info recipient state1 t net e3 e1 e5 e6 et = record {
      depositor = a;
      is_depositor = depositor_of-IsDepositor p info recipient a e3;
      rate = rate;
      queried = e1;
      net = net;
      taxed = e5;
      aust = aust;
      shares = shares;
      worth = e6;
      new = new;
      config_lem = ap (λ (x : Store). x.config) stored.frame ∙ ap (λ (x : Store). x.config) framed;
      sponsors_lem =
          ap (λ (x : Store). x.sponsors) stored.frame ∙ ap (λ (x : Store). x.sponsors) framed;
      prizes_lem = ap (λ (x : Store). x.prizes) stored.frame ∙ ap (λ (x : Store). x.prizes) framed;
      pool_shares =
          ap (λ (x : Pool). x.total_user_shares) credited.pool_lem
          ∙ ap (λ (x : Pool). x.total_user_shares + shares) updated.pool_lem;
      pool_aust =
          ap (λ (x : Pool). x.total_user_aust) credited.pool_lem
          ∙ ap (λ (x : Pool). x.total_user_aust + aust) updated.pool_lem;
      pool_sponsors =
          ap (λ (x : Pool). x.total_sponsor_lottery_deposits) credited.pool_lem
          ∙ ap (λ (x : Pool). x.total_sponsor_lottery_deposits) updated.pool_lem;
      users = deposit_users;
      tickets_state = et;
      tickets_users = deposit_tickets;
      gap = deposit_gap;
      synced = deposit-IsSynced;
      bought = bought.bought;
      bought_valid = bought.valid;
      bought_counted = bought.counted;
      operator_addr = i2.operator_addr;
      credited = deposit_credited;
      operator_kept = λ r.
          updated.kept (registered_same ∙ r)
          ∙ ap (λ (x : DepositorInfo). x.operator_addr) bought.info;
      operator_unasked =
          λ e. updated.unasked e ∙ ap (λ (x : DepositorInfo). x.operator_addr) bought.info;
      operator_chosen = λ b r e. updated.chosen b (registered_same ∙ r) e;
      pool_operators = deposit_pool_operators;
      gained = deposit_gained;
      message = refl;
    }

  -- A deposit or gift that succeeds adds the shares and aUST that the amount after tax is worth to
  -- the pool, and the shares and a number of valid tickets to the information of the depositor,
  -- which is the recipient if one is given and the sender otherwise, and changes no other
  -- depositor. Both counts of tickets grow by that number. A registered operator is kept, one that
  -- is asked for is assigned if there is none, and none is if none is asked for. The depositor's
  -- operator gains the minted shares, and those held before if it is assigned now, and no other
  -- gains any; the pool's sum gains the minted shares if the depositor has an operator then. The
  -- configuration, the sponsors and the prizes stay, and the amount after tax is sent to Anchor.
  pub deposit-Deposited :
      (s s' : Store) (env : Env) (info : MessageInfo) (recipient operator : Option Addr)
      (encoded : ℕ) (msgs : List Msg)
      → deposit p s env info recipient operator encoded ≡ ok (s', msgs)
      → Deposited p s s' env info recipient operator msgs
  unfolding deposit
  deposit-Deposited s s' env info recipient operator encoded msgs h =
      let denom = s.config.stable_denom in
      let sent = amount_sent denom info.funds in
      let height = env.block.block_height in
      with_ok (p.exchange_rate s.config.anchor_contract height) _ h λ rate e1 h1.
        with_ok (check_not_started s) _ h1 λ _ e2 h2.
          with_ok (depositor_of p info recipient) _ h2 λ a e3 h3.
            with_ok (if nat_beq sent 0 then zero_amount p recipient else ok tt) _ h3 λ _ e4 h4.
              with_ok (deduct_tax p denom sent) _ h4 λ net e5 h5.
                with_ok (minted p s.pool net rate) _ h5 λ m e6 h6.
                  let i = read_depositor_info p s a in
                  with_ok
                    (handle_depositor_ticket_updates p env s.config s.pool a i encoded rate m.1 m.0
                      s)
                    _ h6
                    λ x e7 h7.
                      with_ok (compute_global_operator_reward p s.state s.pool height) _ h7
                        λ state1 e8 h8.
                          with_ok
                            (handle_depositor_operator_updates p x.0 state1 s.pool a x.1.0 m.1
                              operator)
                            _ h8
                            λ y e9 h9. with_ok (credit p y.1.1 y.1.0 m.0 m.1) _ h9 λ c e10 h10.
                              with_ok (p.add state1.total_tickets x.1.1) _ h10 λ t e11 h11.
                                with_ok (store_depositor_info p y.0 a c.0 height) _ h11
                                  λ s3 e12 h12.
                                    let bought =
                                      handle_depositor_ticket_updates_lem p env s.config s.pool a i
                                        x.1.0 encoded rate m.1 m.0 s x.0 x.1.1 e7 in
                                    let updated =
                                      handle_depositor_operator_updates-Updated p x.0 y.0 state1
                                        s.pool y.1.0 a x.1.0 y.1.1 m.1 operator e9 in
                                    let credited =
                                      credit-Credited y.1.1 c.0 y.1.0 c.1 m.0 m.1 e10 in
                                    let stored =
                                      store_depositor_info-Stored p y.0 s3 a c.0 height e12 in
                                    subst
                                      (λ (r : Store × List Msg).
                                        Deposited p s r.0 env info recipient operator r.1)
                                      (ok-injective h12)
                                      (deposited s x.0 y.0 s3 a x.1.0 y.1.1 c.0 y.1.0 c.1 m.0 m.1
                                        rate x.1.1 operator bought updated credited stored height
                                        e12 env info recipient state1 t net e3 e1 e5 e6
                                        (p.add_lem _ _ t e11
                                          ∙ ap (λ (n : ℕ). n + x.1.1)
                                              (compute_global_operator_reward-tickets s.state state1
                                                s.pool height e8)))
