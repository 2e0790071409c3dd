-- ===== src/Lotto/Deposit/Claim.antt =====
-- The claim of tickets and the balance of the books (contracts/lotto/src/contract.rs).
use glow_contracts.Base.{
  ℕ, ◌+◌, ◌≡◌, ◌∙◌, refl, sym, ap, subst, List, ok, with_ok, arith, length, ok-injective,
  length-append, ◌++◌, ◌≤◌, nat_beq, if◌then◌else◌, true,
}
use glow_contracts.Platform.{Platform}
use glow_contracts.Lotto.Types.{Store, DepositorInfo, Ticket, Env, MessageInfo, Msg, Addr}
use glow_contracts.Dict.{Dict}
use glow_contracts.Lotto.Storage.{
  read_depositor_info, store_depositor_info, read_depositor_stats, read_depositor_data,
}
use glow_contracts.Lotto.Storage.Hex.{read-store_grown, read_depositor_info-AreHex}
use glow_contracts.Lotto.Tickets.Limits.{AreValid}
use glow_contracts.Lotto.Books.{IsBalanced, store_depositor_info-Stored, user_tickets}
use glow_contracts.Lotto.Tickets.{handle_depositor_ticket_updates}
use glow_contracts.Lotto.Tickets.Purchase.{handle_depositor_ticket_updates_lem}
use glow_contracts.Lotto.Deposit.{check_not_started, execute_claim_tickets}
use glow_contracts.Lotto.Deposit.Accounting.{length-read_tickets}
use glow_contracts.Lotto.Unbonding.Balance.{Stored-IsBalanced}

module _ (p : Platform) where
  -- What only the holders of tickets differ in.
  SameBooks : Store → Store → Addr → Type 0
  SameBooks s s1 a =
      (IsBalanced s → IsBalanced s1)
      × (read_depositor_info p s1 a ≡ read_depositor_info p s a)
      × (user_tickets s1 ≡ user_tickets s)
      × (s1.state ≡ s.state)
      × (s1.pool ≡ s.pool)

  tickets-SameBooks :
      (s : Store) (l : Dict Ticket (List Addr)) (a : Addr)
      → SameBooks s (record s { tickets = l }) a
  unfolding SameBooks read_depositor_stats read_depositor_data read_depositor_info
  tickets-SameBooks s l a = (
    λ b. record {
      shares = b.shares;
      sponsors = b.sponsors;
      tickets = b.tickets;
      operators = b.operators;
      synced = b.synced;
    },
    refl,
    refl,
    refl,
    refl,
  )

  granted :
      (s s1 s2 : Store) (a : Addr) (i : DepositorInfo) (height : ℕ) (bought : List Ticket)
      → i ≡ record (read_depositor_info p s a) {
        tickets = (read_depositor_info p s a).tickets ++ bought;
      }
      → s1 ≡ record s { tickets = s1.tickets }
      → AreValid bought
      → store_depositor_info p s1 a i height ≡ ok s2
      → (b : Addr)
      → read_depositor_info p s2 b ≡ (
          if nat_beq a b
          then record (read_depositor_info p s a) {
            tickets = (read_depositor_info p s a).tickets ++ bought;
          }
          else read_depositor_info p s b)
  unfolding read_depositor_info read_depositor_data read_depositor_stats
  granted s s1 s2 a i height bought e frame valid run b =
      read-store_grown p s1 s2 a b i (read_depositor_info p s a).tickets bought height
        (read_depositor_info-AreHex p s a) valid (ap (λ (x : DepositorInfo). x.tickets) e) run
      ∙ ap (λ (x : DepositorInfo). if nat_beq a b then x else read_depositor_info p s1 b) e
      ∙ ap
          (λ (x : Store).
            if nat_beq a b
            then record (read_depositor_info p s a) {
              tickets = (read_depositor_info p s a).tickets ++ bought;
            }
            else read_depositor_info p x b)
          frame

  -- The combinations that the account `a` has got, and that nothing else of a depositor changed.
  pub record Granted (s s' : Store) (a : Addr) (max : ℕ) : Type 0 where
    pub bought : List Ticket
    pub valid : AreValid bought
    pub prizes_lem : s'.prizes ≡ s.prizes
    pub within_max : length (read_depositor_info p s' a).tickets ≤ max
    pub counted : user_tickets s' ≡ user_tickets s + length bought
    pub granted :
        (b : Addr)
        → read_depositor_info p s' b ≡ (
            if nat_beq a b
            then record (read_depositor_info p s a) {
              tickets = (read_depositor_info p s a).tickets ++ bought;
            }
            else read_depositor_info p s b)

  pub execute_claim_tickets_lem :
      (s s' : Store) (env : Env) (info : MessageInfo) (encoded : ℕ) (msgs : List Msg)
      → execute_claim_tickets p s env info encoded ≡ ok (s', msgs)
      → IsBalanced s
      → (IsBalanced s')
        × (s'.state ≡ s.state)
        × (s'.pool ≡ s.pool)
        × Granted s s' info.sender s.config.max_tickets_per_depositor
  unfolding execute_claim_tickets SameBooks
  execute_claim_tickets_lem s s' env info encoded msgs h b =
      let a = info.sender in
      let i = read_depositor_info p s a in
      with_ok (p.exchange_rate s.config.anchor_contract env.block.block_height) _ h λ rate e1 h1.
        with_ok (check_not_started s) _ h1 λ _ e2 h2.
          with_ok (handle_depositor_ticket_updates p env s.config s.pool a i encoded rate 0 0 s) _
            h2
            λ x e3 h3.
              with_ok (store_depositor_info p x.0 a x.1.0 env.block.block_height) _ h3 λ s2 e4 h4.
                let bought =
                  handle_depositor_ticket_updates_lem p env s.config s.pool a i x.1.0 encoded rate 0
                    0 s x.0 x.1.1 e3 in
                let same : SameBooks s x.0 a =
                  subst (λ (t : Store). SameBooks s t a) (sym bought.frame)
                    (tickets-SameBooks s x.0.tickets a) in
                let d = store_depositor_info-Stored p x.0 s2 a x.1.0 env.block.block_height e4 in
                let shares =
                  ap (λ (t : DepositorInfo). t.shares) bought.info
                  ∙ sym (ap (λ (t : DepositorInfo). t.shares) same.1) in
                let grown : length x.1.0.tickets
                    ≡ length (read_depositor_info p x.0 a).tickets + x.1.1 =
                  omega (
                    arith,
                    ap (λ (t : DepositorInfo). length t.tickets) bought.info,
                    ap (λ (t : DepositorInfo). length t.tickets) same.1,
                    length-append i.tickets bought.bought,
                    bought.counted,
                  ) in
                let balanced = same.0 b in
                let whole =
                  granted s x.0 s2 a x.1.0 env.block.block_height bought.bought bought.info
                    bought.frame bought.valid e4 in
                let self : nat_beq a a ≡ true = ground arith in
                subst
                  (λ (r : Store × List Msg).
                    (IsBalanced r.0)
                    × (r.0.state ≡ s.state)
                    × (r.0.pool ≡ s.pool)
                    × Granted s r.0 a s.config.max_tickets_per_depositor)
                  (ok-injective h4)
                  (
                    Stored-IsBalanced p x.0 s2 a x.1.0 x.1.1 shares grown d balanced,
                    ap (λ (t : Store). t.state) d.frame ∙ same.3,
                    ap (λ (t : Store). t.pool) d.frame ∙ same.4,
                    record {
                      bought = bought.bought;
                      valid = bought.valid;
                      prizes_lem =
                          ap (λ (t : Store). t.prizes) d.frame
                          ∙ ap (λ (t : Store). t.prizes) bought.frame;
                      within_max = omega (
                        arith,
                        ap (λ (t : DepositorInfo). length t.tickets) (rw self at (whole a)),
                        length-append i.tickets bought.bought,
                        bought.counted,
                        bought.within_max,
                      );
                      counted = omega (
                        arith,
                        d.tickets_lem,
                        grown,
                        length-read_tickets p x.0 a,
                        balanced.synced a,
                        same.2,
                        bought.counted,
                      );
                      granted = whole;
                    },
                  )
