-- ===== src/Lotto/Tickets.antt =====
-- Tickets: their encodings, the round up to the balance, and the holders of each sequence
-- (contracts/lotto/src/helpers.rs).
pub mod Holders
pub mod Limits
pub mod Purchase
use glow_contracts.Base.{
  ℕ, ◌+◌, ◌%◌, ◌^◌, zero, suc, Bool, false, true, ◌&&◌, ◌||◌, not, List, [], ◌∷◌, ◌++◌, map, Option,
  none, some, Result, ok, err, panic, std, lotto, invalid_sequence, invalid_holder_sequence,
  insufficient_post_transaction_depositor_balance, max_tickets_per_depositor_exceeded, ◌>>=◌, ◌>>◌,
  fail_if, or_fail, ltb, leb, nat_beq, length, take, drop, all, is_hex_char, if◌then◌else◌, text_eq,
}
use glow_contracts.Dict.{Dict, lookup, insert_in_order}
use glow_contracts.Platform.{Platform}
use glow_contracts.Lotto.Types.{
  Config, Store, Pool, Env, DepositorInfo, Addr, Ticket, ticket_length,
}
use glow_contracts.Lotto.Storage.{or_default}

unfoldable pub is_valid_sequence : Ticket → ℕ → Bool
is_valid_sequence sequence len = nat_beq (length sequence) len && all is_hex_char sequence

-- `chunks(3)`
unfoldable pub chunks3 : List ℕ → List (List ℕ)
chunks3 [] = []
chunks3 (a ∷ []) = (a ∷ []) ∷ []
chunks3 (a ∷ b ∷ []) = (a ∷ b ∷ []) ∷ []
chunks3 (a ∷ b ∷ c ∷ r) = (a ∷ b ∷ c ∷ []) ∷ chunks3 r

-- The order of keys: bytes from the left.
abbrev pub text_before : List ℕ → List ℕ → Bool
text_before [] [] = false
text_before [] (y ∷ ys) = true
text_before (x ∷ xs) [] = false
text_before (x ∷ xs) (y ∷ ys) = ltb x y || nat_beq x y && text_before xs ys

-- The loop that refuses the first combination that is not valid.
unfoldable pub check_sequences : List Ticket → Result (Unit {0})
unfolding is_valid_sequence
check_sequences [] = ok tt
check_sequences (t ∷ ts) = do
  fail_if (not (is_valid_sequence t ticket_length)) (lotto (invalid_sequence t))
  check_sequences ts

-- One round of the last loop: the holders of a combination gain the depositor.
unfoldable pub add_holder : Config → Addr → Store → Ticket → Result Store
add_holder config depositor s t =
    let put = λ (l : List Addr). record s { tickets = insert_in_order text_before t l s.tickets } in
    elim (lookup t s.tickets) [
      | none ↦ ok (put (depositor ∷ []))
      | some holders ↦
          if leb config.max_holders (length holders)
          then err (lotto (invalid_holder_sequence t))
          else ok (put (holders ++ depositor ∷ []))
    ]

unfoldable pub add_holders :
    Config → Addr → List Ticket → Store → DepositorInfo → Result (Store × DepositorInfo)
unfolding add_holder
add_holders config depositor [] s i = ok (s, i)
add_holders config depositor (t ∷ ts) s i = do
  s1 ← add_holder config depositor s t
  add_holders config depositor ts s1 (record i { tickets = i.tickets ++ t ∷ [] })

module _ (p : Platform) where
  open p use {
    add, sub, mul_dec, div_dec, dec_from_uint, dec_from_ratio, to_uint128, base64_decode,
    hex_encode, keccak256, addr_text, number_text,
  }

  unfoldable pub base64_encoded_tickets_to_vec_string_tickets : ℕ → Result (List Ticket)
  unfolding chunks3
  base64_encoded_tickets_to_vec_string_tickets encoded = do
    bytes ← or_fail (base64_decode encoded) (std "Couldn't base64 decode the encoded tickets.")
    fail_if (not (nat_beq (length bytes % 3) 0)) (std "Decoded tickets wrong length.")
    ok (map hex_encode (chunks3 bytes))

  unfoldable pub pseudo_random_seq : Addr → ℕ → ℕ → Result Ticket
  pseudo_random_seq sender tickets time =
      let input = addr_text sender ++ (number_text time ++ number_text tickets) in
      let digest = hex_encode (keccak256 input) in
      if ltb (length digest) (ticket_length + 2)
      then err panic
      else ok (take ticket_length (drop 2 digest))

  -- The loop that adds generated combinations until the balance is used up, at most `rounds`.
  unfoldable pub round_up : ℕ → Addr → ℕ → ℕ → ℕ → ℕ → List Ticket → Result (List Ticket × (ℕ × ℕ))
  unfolding pseudo_random_seq
  round_up zero depositor now limit count new combinations = ok (combinations, (new, count))
  round_up (suc rounds) depositor now limit count new combinations =
      let rest = do
        sequence ← pseudo_random_seq depositor count now
        round_up rounds depositor now limit (count + 1) (new + 1) (combinations ++ sequence ∷ [])
      in if leb limit count then ok (combinations, (new, count)) else rest

  -- The balance after the deposit, and the tickets that it pays for.
  unfoldable pub post_transaction_limits :
      Config → Pool → DepositorInfo → ℕ → ℕ → ℕ → Result (ℕ × ℕ)
  post_transaction_limits config pool i aust_exchange_rate minted_shares minted_aust = do
    shares ← add i.shares minted_shares
    aust ← add pool.total_user_aust minted_aust
    ratio ← dec_from_ratio shares (← add pool.total_user_shares minted_shares)
    balance ← mul_dec (← mul_dec aust ratio) aust_exchange_rate
    price ← dec_from_uint (← sub config.ticket_price 10)
    count ← to_uint128 (← div_dec balance price)
    ok (balance, count % 2 ^ 64)

  unfoldable pub handle_depositor_ticket_updates :
      Env
      → Config
      → Pool
      → Addr
      → DepositorInfo
      → ℕ
      → ℕ
      → ℕ
      → ℕ
      → Store
      → Result (Store × (DepositorInfo × ℕ))
  unfolding base64_encoded_tickets_to_vec_string_tickets check_sequences post_transaction_limits
      round_up add_holders
  handle_depositor_ticket_updates env config pool depositor i encoded rate shares aust s = do
    combinations ← base64_encoded_tickets_to_vec_string_tickets encoded
    check_sequences combinations
    (balance, limit) ← post_transaction_limits config pool i rate shares aust
    (new_combinations, (new, count)) ←
        round_up 100 depositor env.block.block_time limit (length i.tickets + length combinations)
          (length combinations) combinations
    fail_if (ltb limit count)
        (lotto (insufficient_post_transaction_depositor_balance balance count limit))
    fail_if (ltb config.max_tickets_per_depositor count)
        (lotto (max_tickets_per_depositor_exceeded config.max_tickets_per_depositor count))
    (s1, i1) ← add_holders config depositor new_combinations s i
    ok (s1, (i1, new))
