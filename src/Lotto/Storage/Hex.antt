-- ===== src/Lotto/Storage/Hex.antt =====
-- The hexadecimal tickets of a depositor, and what is read of them after a change (state.rs).
use glow_contracts.Base.{
  ℕ, zero, suc, ◌≡◌, subst, sym, true, List, [], ◌∷◌, ◌++◌, drop, ok, arith, all, is_hex_char,
  nat_eq, nat_beq, if◌then◌else◌,
}
use glow_contracts.Platform.{Platform}
use glow_contracts.Lotto.Types.{Store, DepositorInfo, Addr, Ticket}
use glow_contracts.Lotto.Tickets.{is_valid_sequence}
use glow_contracts.Lotto.Tickets.Limits.{AreValid}
use glow_contracts.Lotto.Storage.{
  read_depositor_info, read_depositor_data, store_depositor_info,
  vec_binary_tickets_to_vec_string_tickets,
}
use glow_contracts.Lotto.Storage.Laws.{AreHex, read-store_depositor_info}

AreHex-append : (ts us : List Ticket) → AreHex ts → AreHex us → AreHex (ts ++ us)
AreHex-append [] us h k = k
AreHex-append (t ∷ ts) us (e, h) k = (e, AreHex-append ts us h k)

pub AreHex-drop : (n : ℕ) (ts : List Ticket) → AreHex ts → AreHex (drop n ts)
AreHex-drop zero ts h = h
AreHex-drop (suc n) [] h = tt
AreHex-drop (suc n) (t ∷ ts) h = AreHex-drop n ts h.1

AreValid-AreHex : (ts : List Ticket) → AreValid ts → AreHex ts
unfolding is_valid_sequence
AreValid-AreHex [] h = tt
AreValid-AreHex (t ∷ ts) h =
    let first : all is_hex_char t ≡ true = ground arith in
    let rest : AreValid ts = ground arith in (first, AreValid-AreHex ts rest)

module _ (p : Platform) where
  encoded-AreHex : (bs : List (List ℕ)) → AreHex (vec_binary_tickets_to_vec_string_tickets p bs)
  unfolding vec_binary_tickets_to_vec_string_tickets
  encoded-AreHex [] = tt
  encoded-AreHex (b ∷ bs) = (p.hex_encode_chars b, encoded-AreHex bs)

  pub read_depositor_info-AreHex :
      (s : Store) (a : Addr) → AreHex (read_depositor_info p s a).tickets
  unfolding read_depositor_info
  read_depositor_info-AreHex s a = encoded-AreHex (read_depositor_data s a).vec_binary_tickets

  -- What is stored for a depositor whose tickets are some of its own and valid ones is what is read
  -- back, and no other depositor changes.
  pub read-store_grown :
      (s s' : Store) (a b : Addr) (i : DepositorInfo) (ts us : List Ticket) (height : ℕ)
      → AreHex ts
      → AreValid us
      → i.tickets ≡ ts ++ us
      → store_depositor_info p s a i height ≡ ok s'
      → read_depositor_info p s' b ≡ (if nat_beq a b then i else read_depositor_info p s b)
  read-store_grown s s' a b i ts us height h k e run =
      read-store_depositor_info p s s' a b i height
        (subst AreHex (sym e) (AreHex-append ts us h (AreValid-AreHex us k))) run
