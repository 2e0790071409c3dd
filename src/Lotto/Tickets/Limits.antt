-- ===== src/Lotto/Tickets/Limits.antt =====
-- How many tickets a purchase gives, and their form (helpers.rs).
use glow_contracts.Base.{
  ℕ, ◌+◌, zero, suc, ◌≡◌, refl, true, List, [], ◌∷◌, ◌++◌, ok, arith, length, length-append, inl,
  inr, >>=-eq-ok, Bool-cases, leb, all, is_hex_char, drop, all-append, all-take, all-drop,
  length-take, length-drop,
}
use glow_contracts.Platform.{Platform}
use glow_contracts.Lotto.Types.{Addr, Ticket, ticket_length}
use glow_contracts.Lotto.Tickets.{round_up, check_sequences, pseudo_random_seq, is_valid_sequence}

abbrev pub AreValid : List Ticket → Type 0
AreValid ts = all (λ t. is_valid_sequence t ticket_length) ts ≡ true

pub check_sequences-AreValid : (ts : List Ticket) → check_sequences ts ≡ ok tt → AreValid ts
unfolding check_sequences
check_sequences-AreValid [] h = refl
check_sequences-AreValid (t ∷ ts) h = ground (arith, check_sequences-AreValid ts)

module _ (p : Platform) where
  -- A generated combination has six lower case hexadecimal digits.
  pub pseudo_random_seq_valid :
      (a : Addr) (n now : ℕ) (t : Ticket)
      → pseudo_random_seq p a n now ≡ ok t
      → is_valid_sequence t ticket_length ≡ true
  unfolding pseudo_random_seq is_valid_sequence
  pseudo_random_seq_valid a n now t h =
      let d : List ℕ =
        p.hex_encode (p.keccak256 (p.addr_text a ++ (p.number_text now ++ p.number_text n))) in
      ground (
        arith,
        p.hex_encode_chars (p.keccak256 (p.addr_text a ++ (p.number_text now ++ p.number_text n))),
        all-drop is_hex_char 2 d,
        all-take is_hex_char 6 (drop 2 d),
        length-drop 2 d,
        length-take 6 (drop 2 d),
      )

  module _ (a : Addr) (now limit : ℕ) where
    -- The loop adds as many combinations as it counts, never past the limit, and all valid.
    pub round_up_lem :
        (f : ℕ) (count new : ℕ) (ts us : List Ticket) (new' count' : ℕ)
        → round_up p f a now limit count new ts ≡ ok (us, (new', count'))
        → (length us + count ≡ length ts + count')
          × (new' + count ≡ new + count')
          × (AreValid ts → AreValid us)
    unfolding round_up
    round_up_lem zero count new ts us new' count' h = ground arith
    round_up_lem (suc f) count new ts us new' count' h = elim (Bool-cases (leb limit count)) [
      | inl done ↦ ground arith
      | inr more ↦
          let (t, e, r) = >>=-eq-ok (pseudo_random_seq p a count now) _ (rw more at h) in
          let (len, num, valid) =
            round_up_lem f (count + 1) (new + 1) (ts ++ t ∷ []) us new' count' r in
          (
            omega (arith, len, length-append ts (t ∷ [])),
            omega arith,
            λ v. valid (
                ground (
                  arith,
                  all-append (λ (u : Ticket). is_valid_sequence u ticket_length) ts (t ∷ []),
                  pseudo_random_seq_valid a count now t e,
                )),
          )
    ]
