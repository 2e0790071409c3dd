-- ===== src/Lotto/Storage/Laws.antt =====
-- What is read back after a write.
use glow_contracts.Base.{
  ℕ, ◌≡◌, true, List, [], ◌∷◌, ok, arith, all, is_hex_char, nat_eq, if◌then◌else◌, ◌==◌,
  Option-cases, inl, inr, >>=-eq-ok, nat_beq, length,
}
use glow_contracts.Dict.{lookup, insert, lookup-insert}
use glow_contracts.Platform.{Platform}
use glow_contracts.Lotto.Types.{
  Store, DepositorInfo, Addr, Ticket, DepositorStatsInfo, DepositorData,
}
use glow_contracts.Lotto.Storage.{
  read_depositor_info, store_depositor_info, vec_string_tickets_to_vec_binary_tickets,
  binary_ticket, vec_binary_tickets_to_vec_string_tickets, read_depositor_stats, save_stats,
  or_default,
}

-- Every ticket is written in lower case hexadecimal digits.
abbrev pub AreHex : List Ticket → Type 0
AreHex [] = Unit
AreHex (t ∷ ts) = (all is_hex_char t ≡ true) × AreHex ts

pub read-save_stats :
    (s : Store) (a b : Addr) (i : DepositorStatsInfo) (height : ℕ)
    → read_depositor_stats (save_stats s a i height) b
      ≡ (if nat_beq a b then i else read_depositor_stats s b)
unfolding read_depositor_stats save_stats
read-save_stats s a b i height =
    let row = (height, i) ∷ or_default [] (lookup a s.depositor_stats) in
    rw (lookup-insert b a row s.depositor_stats) (ground arith)

module _ (p : Platform) where
  binary_ticket-hex_encode :
      (t : Ticket) (b : List ℕ)
      → all is_hex_char t ≡ true
      → binary_ticket p t ≡ ok b
      → p.hex_encode b ≡ t
  unfolding binary_ticket
  binary_ticket-hex_encode t b h e = elim (Option-cases (p.hex_decode t)) [
    | inl bad ↦ ground arith
    | inr (c, good) ↦ ground (arith, p.hex_encode-hex_decode t c h good)
  ]

  -- Tickets of hexadecimal digits that are converted to their binary form come back unchanged.
  string_tickets_roundtrip :
      (ts : List Ticket) (bs : List (List ℕ))
      → AreHex ts
      → vec_string_tickets_to_vec_binary_tickets p ts ≡ ok bs
      → vec_binary_tickets_to_vec_string_tickets p bs ≡ ts
  unfolding vec_string_tickets_to_vec_binary_tickets vec_binary_tickets_to_vec_string_tickets
  string_tickets_roundtrip [] bs h e = ground arith
  string_tickets_roundtrip (t ∷ ts) bs h e =
      let (b, eb, r) = >>=-eq-ok (binary_ticket p t) _ e in
      let (cs, ec, q) = >>=-eq-ok (vec_string_tickets_to_vec_binary_tickets p ts) _ r in
      ground (arith, string_tickets_roundtrip ts cs h.1 ec, binary_ticket-hex_encode t b h.0 eb)

  -- Storing a depositor's information whose tickets are of hexadecimal digits, if it succeeds,
  -- makes it what is read for that depositor, and changes what is read for no other.
  pub read-store_depositor_info :
      (s s' : Store) (a b : Addr) (i : DepositorInfo) (height : ℕ)
      → AreHex i.tickets
      → store_depositor_info p s a i height ≡ ok s'
      → read_depositor_info p s' b ≡ (if a == b then i else read_depositor_info p s b)
  unfolding store_depositor_info read_depositor_info
  read-store_depositor_info s s' a b i height h e =
      let (bs, eb, q) = >>=-eq-ok (vec_string_tickets_to_vec_binary_tickets p i.tickets) _ e in
      let d : DepositorData = record {
        vec_binary_tickets = bs;
        unbonding_info = i.unbonding_info;
      } in
      let st : DepositorStatsInfo = record {
        shares = i.shares;
        num_tickets = length i.tickets;
        operator_addr = i.operator_addr;
      } in
      let s1 : Store = record s { depositor_data = insert a d s.depositor_data } in
      ground (
        arith,
        string_tickets_roundtrip i.tickets bs h eb,
        lookup-insert b a d s.depositor_data,
        read-save_stats s1 a b st height,
      )
