-- ===== src/Lotto/Tickets/Purchase.antt =====
-- A purchase of tickets as a whole (handle_depositor_ticket_updates of helpers.rs).
use glow_contracts.Base.{
  ℕ, ◌+◌, ◌≤◌, ◌<◌, ◌≡◌, ◌∙◌, ok_parts, ltb_false→le, List, ◌++◌, ok, arith, length, >>=-eq-ok, ltb,
  fail_if->>-eq-ok,
}
use glow_contracts.Platform.{Platform}
use glow_contracts.Lotto.Types.{Store, Config, DepositorInfo, Addr, Ticket, Pool, Env}
use glow_contracts.Lotto.Tickets.{
  round_up, handle_depositor_ticket_updates, post_transaction_limits, check_sequences,
  base64_encoded_tickets_to_vec_string_tickets, add_holders,
}
use glow_contracts.Lotto.Tickets.Holders.{
  holders, count, replicate, add_holders_lem, add_holders_bounded,
}
use glow_contracts.Lotto.Tickets.Limits.{AreValid, check_sequences-AreValid, round_up_lem}

-- `s` and `i` before, `s'` and `i'` after, `new` the number that the handler returns.
pub record Purchase (p : Platform) (config : Config) (pool : Pool) (depositor : Addr)
    (rate shares aust : ℕ) (s s' : Store) (i i' : DepositorInfo) (new : ℕ) : Type 0 where
  -- the tickets that were bought
  pub bought : List Ticket
  pub valid : AreValid bought
  pub counted : length bought ≡ new
  -- the balance after the deposit, and the number of tickets that it pays for
  pub balance : ℕ
  pub limit : ℕ
  pub limits : post_transaction_limits p config pool i rate shares aust ≡ ok (balance, limit)
  pub within_limit : length i.tickets + new ≤ limit
  pub within_max : length i.tickets + new ≤ config.max_tickets_per_depositor
  pub info : i' ≡ record i { tickets = i.tickets ++ bought }
  pub frame : s' ≡ record s { tickets = s'.tickets }
  pub held : (t : Ticket) → holders s' t ≡ holders s t ++ replicate (count t bought) depositor
  pub bounded :
      0 < config.max_holders
      → ((t : Ticket) → length (holders s t) ≤ config.max_holders)
      → (t : Ticket) → length (holders s' t) ≤ config.max_holders

bought_count :
    (bought new after asked had : ℕ)
    → bought + (had + asked) ≡ asked + after
    → new + (had + asked) ≡ asked + after
    → bought ≡ new
bought_count bought new after asked had h k = omega arith

within :
    (new had after asked bound : ℕ) {new' : ℕ}
    → new + (had + asked) ≡ asked + after
    → after ≤ bound
    → new ≡ new'
    → had + new' ≤ bound
within new had after asked bound h k e = omega arith

module _ (p : Platform) where
  -- A purchase of tickets that succeeds buys valid combinations, appends them to the depositor's
  -- tickets within what the balance pays for and within the maximum, adds the depositor once for
  -- each to the holders of its combination, changes nothing else in the storage, and keeps the
  -- holders of every combination within a positive maximum if they were before.
  pub handle_depositor_ticket_updates_lem :
      (env : Env) (config : Config) (pool : Pool) (depositor : Addr) (i i' : DepositorInfo)
      (encoded rate shares aust : ℕ) (s s' : Store) (new : ℕ)
      → handle_depositor_ticket_updates p env config pool depositor i encoded rate shares aust s
        ≡ ok (s', (i', new))
      → Purchase p config pool depositor rate shares aust s s' i i' new
  unfolding handle_depositor_ticket_updates
  handle_depositor_ticket_updates_lem env config pool depositor i i' encoded rate shares aust s s'
        new h =
      let (cs, e1, h1) = >>=-eq-ok (base64_encoded_tickets_to_vec_string_tickets p encoded) _ h in
      let (u2, e2, h2) = >>=-eq-ok (check_sequences cs) _ h1 in
      let (bl, e3, h3) =
        >>=-eq-ok (post_transaction_limits p config pool i rate shares aust) _ h2 in
      let had = length i.tickets + length cs in
      let now = env.block.block_time in
      let (r, e4, h4) = >>=-eq-ok (round_up p 100 depositor now bl.1 had (length cs) cs) _ h3 in
      let (low, h5) = fail_if->>-eq-ok (ltb bl.1 r.1.1) _ _ h4 in
      let (few, h6) = fail_if->>-eq-ok (ltb config.max_tickets_per_depositor r.1.1) _ _ h5 in
      let (x, e7, h7) = >>=-eq-ok (add_holders config depositor r.0 s i) _ h6 in
      let (len, num, valid) =
        round_up_lem p depositor now bl.1 100 had (length cs) cs r.0 r.1.0 r.1.1 e4 in
      let (same, n) = ok_parts x r.1.0 h7 in
      let e8 : add_holders config depositor r.0 s i ≡ ok (s', i') = e7 ∙ same in
      let (i_lem, s_lem, held) = add_holders_lem config depositor r.0 s s' i i' e8 in
      record {
        bought = r.0;
        valid = valid (check_sequences-AreValid cs e2);
        counted = bought_count _ _ _ (length cs) (length i.tickets) len num ∙ n;
        balance = bl.0;
        limit = bl.1;
        limits = e3;
        within_limit = within _ (length i.tickets) _ (length cs) bl.1 num (ltb_false→le _ _ low) n;
        within_max = within _ (length i.tickets) _ (length cs) _ num (ltb_false→le _ _ few) n;
        info = i_lem;
        frame = s_lem;
        held = held;
        bounded = λ pos b. add_holders_bounded config depositor r.0 s s' i i' pos e8 b;
      }
