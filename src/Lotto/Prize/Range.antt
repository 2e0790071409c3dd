-- ===== src/Lotto/Prize/Range.antt =====
-- The range of keys that a page is taken from, and the tickets that match (execute_prize).
use glow_contracts.Base.{
  ℕ, zero, suc, ◌+◌, ◌-◌, ◌≤◌, ◌≡◌, ◌∙◌, refl, sym, ap, true, false, [], ◌∷◌, ◌++◌, ok, with_ok,
  arith, nat_beq, length, take, all, is_hex_char, ◌↔◌, ◌⊎◌, Bool-cases, inl, inr, ok-injective,
  length-take,
}
use glow_contracts.Lotto.Types.{Ticket, ticket_length}
use glow_contracts.Lotto.Tickets.{text_before}
use glow_contracts.Lotto.Prize.{in_range, fill_f, prefix, calculate_max_bound, count_seq_matches}

fill_top :
    (n : ℕ) (k : Ticket)
    → all is_hex_char k ≡ true
    → length k ≤ n
    → text_before (fill_f n) k ≡ false
fill_top zero [] h l = refl
fill_top zero (y ∷ k) h l = ground arith
fill_top (suc n) [] h l = refl
fill_top (suc n) (y ∷ k) h l = ground (arith, fill_top n k)

-- The count of matches of two texts goes on past equal characters and stops at others.
count_step :
    (x y : ℕ) (s k : Ticket) (m : ℕ)
    → count_seq_matches (x ∷ s) (y ∷ k) ≡ ok m
    → ((x ≡ y) × ((j : ℕ) × (count_seq_matches s k ≡ ok j) × (m ≡ suc j)))
      ⊎ ((nat_beq x y ≡ false) × (m ≡ 0))
unfolding count_seq_matches
count_step x y s k m h = elim (Bool-cases (nat_beq x y)) [
  | inl same ↦
      with_ok (count_seq_matches s k) _ (rw same at h)
        λ j e e'. inl (ground arith, (j, e, sym (ok-injective e')))
  | inr other ↦ inr (other, sym (ok-injective (rw other at h)))
]

prefix_range :
    (n w : ℕ) (s k : Ticket) (m : ℕ)
    → w + n ≡ length s
    → length k ≡ length s
    → all is_hex_char k ≡ true
    → count_seq_matches s k ≡ ok m
    → (in_range true (take n s) (take n s ++ fill_f w) k ≡ true) ↔ (n ≤ m)
prefix_range zero w s [] m b l h c = ground (arith, fill_top w [])
prefix_range zero w s (y ∷ k) m b l h c = ground (arith, fill_top w (y ∷ k))
prefix_range (suc n) w [] k m b l h c = ground arith
prefix_range (suc n) w (x ∷ s) [] m b l h c = ground arith
prefix_range (suc n) w (x ∷ s) (y ∷ k) m b l h c = elim (count_step x y s k m c) [
  | inl (same, (j, e, e')) ↦
      ground (arith, prefix_range n w s k j (omega arith) (omega arith) (ground arith) e)
  | inr (other, none) ↦ ground arith
]

take-take : (n : ℕ) (s : Ticket) → take n (take n s) ≡ take n s
take-take zero s = refl
take-take (suc n) [] = refl
take-take (suc n) (x ∷ s) = ap (◌∷◌ x) (take-take n s)

prefix_whole : (n : ℕ) (s t : Ticket) → n ≤ length s → prefix n (take n s) ≡ ok t → t ≡ take n s
prefix_whole n s t b e = ground (arith, length-take n s b, take-take n s)

-- With the first n characters of a winning sequence as the lower bound and the upper bound that is
-- computed from them, a ticket of six hexadecimal digits is in the range if and only if its count
-- of matches with the sequence is at least n.
pub winning_range_lem :
    (n : ℕ) (s high k : Ticket) (m : ℕ)
    → length s ≡ ticket_length
    → n ≤ ticket_length
    → calculate_max_bound (take n s) n ≡ ok high
    → length k ≡ ticket_length
    → all is_hex_char k ≡ true
    → count_seq_matches s k ≡ ok m
    → (in_range true (take n s) high k ≡ true) ↔ (n ≤ m)
unfolding calculate_max_bound
winning_range_lem n s high k m ls b e lk hk c = with_ok (prefix n (take n s)) _ e λ start e1 e2.
    let whole : start ≡ take n s = prefix_whole n s start (omega arith) e1 in
    let len = length-take n s (omega arith) in
    let top : high ≡ take n s ++ fill_f (ticket_length - n) =
      sym (ok-injective e2) ∙ rw (whole, len) refl in
    rw top (prefix_range n (ticket_length - n) s k m (omega arith) (omega arith) hk c)
