-- ===== src/Platform.antt =====
-- What the contracts call and this repository does not implement: the numbers of
-- cosmwasm_bignumber and cosmwasm_std, the times of cw0, address validation, the queries to other
-- contracts, hashing and encodings. Each is a field of `Platform`, and the laws state what is
-- documented of it. A `Uint256` or `Uint128` is its value, a `Decimal256` its number of fractions
-- 1/`one`, and an operation fails where the Rust one panics.
pub mod Testnet
use glow_contracts.Base.{
  ℕ, ◌+◌, ◌*◌, ◌≤◌, ◌<◌, ◌≡◌, ◌/◌, Bool, false, Option, some, List, Result, ok, Duration,
  Expiration, at_time, never, time, Block, leb, length, all, is_hex_char, true,
}

pub record Platform : Type 0 where
  -- Uint256 and Uint128
  pub add : ℕ → ℕ → Result ℕ
  pub sub : ℕ → ℕ → Result ℕ
  pub add_lem : (a b c : ℕ) → add a b ≡ ok c → c ≡ a + b
  pub sub_lem : (a b c : ℕ) → sub a b ≡ ok c → c + b ≡ a
  pub add128 : ℕ → ℕ → Result ℕ
  pub add128_lem : (a b c : ℕ) → add128 a b ≡ ok c → c ≡ a + b
  pub to_uint128 : ℕ → Result ℕ
  pub to_uint128_lem : (a c : ℕ) → to_uint128 a ≡ ok c → c ≡ a
  -- `a * n / d`, rounded down
  pub multiply_ratio : ℕ → ℕ → ℕ → Result ℕ
  pub multiply_ratio_lem :
      (a n d c : ℕ) → multiply_ratio a n d ≡ ok c → (c * d ≤ a * n) × (a * n < c * d + d)
  -- `Uint128`: `checked_sub` and `multiply_ratio`
  pub sub128 : ℕ → ℕ → Result ℕ
  pub sub128_lem : (a b c : ℕ) → sub128 a b ≡ ok c → c + b ≡ a
  pub sub128_ok : (a b : ℕ) → b ≤ a → (c : ℕ) × (sub128 a b ≡ ok c)
  pub multiply_ratio128 : ℕ → ℕ → ℕ → Result ℕ
  pub multiply_ratio128_lem :
      (a n d c : ℕ) → multiply_ratio128 a n d ≡ ok c → (c * d ≤ a * n) × (a * n < c * d + d)
  -- `cosmwasm_std::Decimal`, a number of fractions 1/`decimal_one`: the sum, the quotient of two
  -- numbers, which exists when it is at most one, and the product with a `Uint128`
  pub decimal_one : ℕ
  pub decimal_add : ℕ → ℕ → Result ℕ
  pub decimal_from_ratio : ℕ → ℕ → Result ℕ
  pub mul_decimal : ℕ → ℕ → Result ℕ
  pub decimal_one_pos : 0 < decimal_one
  pub decimal_add_lem : (a b c : ℕ) → decimal_add a b ≡ ok c → c ≡ a + b
  pub decimal_from_ratio_lem :
      (a b c : ℕ)
      → decimal_from_ratio a b ≡ ok c
      → (c * b ≤ a * decimal_one) × (a * decimal_one < c * b + b)
  pub decimal_from_ratio_ok : (a b : ℕ) → 0 < b → a ≤ b → (c : ℕ) × (decimal_from_ratio a b ≡ ok c)
  pub mul_decimal_lem :
      (a d c : ℕ)
      → mul_decimal a d ≡ ok c
      → (c * decimal_one ≤ a * d) × (a * d < c * decimal_one + decimal_one)
  -- `Decimal256`
  pub one : ℕ
  pub percent : ℕ → ℕ
  pub dec_add : ℕ → ℕ → Result ℕ
  pub dec_sub : ℕ → ℕ → Result ℕ
  pub dec_mul : ℕ → ℕ → Result ℕ
  pub dec_div : ℕ → ℕ → Result ℕ
  pub dec_from_uint : ℕ → Result ℕ
  pub dec_from_ratio : ℕ → ℕ → Result ℕ
  pub one_pos : 0 < one
  pub dec_add_lem : (a b c : ℕ) → dec_add a b ≡ ok c → c ≡ a + b
  pub dec_sub_lem : (a b c : ℕ) → dec_sub a b ≡ ok c → c + b ≡ a
  pub dec_from_uint_lem : (a c : ℕ) → dec_from_uint a ≡ ok c → c ≡ a * one
  pub dec_from_ratio_lem :
      (a b c : ℕ) → dec_from_ratio a b ≡ ok c → (c * b ≤ a * one) × (a * one < c * b + b)
  pub dec_mul_lem : (a b c : ℕ) → dec_mul a b ≡ ok c → (c * one ≤ a * b) × (a * b < c * one + one)
  pub dec_div_lem : (a b c : ℕ) → dec_div a b ≡ ok c → (c * b ≤ a * one) × (a * one < c * b + b)
  -- `Uint256 * Decimal256` and `Uint256 / Decimal256`, rounded down
  pub mul_dec : ℕ → ℕ → Result ℕ
  pub div_dec : ℕ → ℕ → Result ℕ
  pub mul_dec_lem : (a d c : ℕ) → mul_dec a d ≡ ok c → (c * one ≤ a * d) × (a * d < c * one + one)
  pub div_dec_lem : (a d c : ℕ) → div_dec a d ≡ ok c → (c * d ≤ a * one) × (a * one < c * d + d)
  -- `cosmwasm_std::Timestamp`, in nanoseconds
  pub seconds : ℕ → ℕ
  pub from_seconds : ℕ → ℕ
  pub minus_seconds : ℕ → ℕ → Result ℕ
  pub seconds_lem : (t : ℕ) → seconds t ≡ t / 1_000_000_000
  pub from_seconds_lem : (s : ℕ) → from_seconds s ≡ s * 1_000_000_000
  pub minus_seconds_lem : (t s r : ℕ) → minus_seconds t s ≡ ok r → r + s * 1_000_000_000 ≡ t
  -- `cw0`
  pub is_expired : Expiration → Block → Bool
  pub add_duration : Expiration → Duration → Result Expiration
  pub after : Duration → Block → Expiration
  pub mul_duration : Duration → ℕ → Result Duration
  pub is_expired_lem : (t : ℕ) (b : Block) → is_expired (at_time t) b ≡ leb t b.block_time
  pub is_expired_never : (b : Block) → is_expired never b ≡ false
  pub add_duration_lem :
      (t d : ℕ) (e : Expiration)
      → add_duration (at_time t) (time d) ≡ ok e
      → e ≡ at_time (t + d * 1_000_000_000)
  pub mul_duration_lem :
      (d k : ℕ) (e : Duration) → mul_duration (time d) k ≡ ok e → e ≡ time (d * k)
  -- addresses: the number 0 stands for the empty address
  pub addr_validate : ℕ → Result ℕ
  pub addr_canonicalize : ℕ → Result ℕ
  pub addr_humanize : ℕ → Result ℕ
  -- `terraswap`: the pair of a denomination and a token, and `Asset::deduct_tax` on a coin
  pub pair_contract : ℕ → ℕ → ℕ → Result ℕ
  pub asset_deduct_tax : ℕ → ℕ → Result ℕ
  -- queries, as answered at the time of the call
  pub tax_rate : Result ℕ
  pub tax_cap : ℕ → Result ℕ
  pub exchange_rate : ℕ → ℕ → Result ℕ
  pub token_balance : ℕ → ℕ → Result ℕ
  pub bank_balance : ℕ → ℕ → Result ℕ
  pub randomness : ℕ → ℕ → Result (List ℕ)
  pub voting_balance_at : ℕ → ℕ → ℕ → Result ℕ
  pub total_voting_balance_at : ℕ → ℕ → Result ℕ
  -- `base64::decode`, `hex::encode` and `hex::decode`, `Keccak256`, and the text of an address
  -- and of a number
  pub base64_decode : ℕ → Option (List ℕ)
  pub hex_encode : List ℕ → List ℕ
  pub hex_decode : List ℕ → Option (List ℕ)
  pub keccak256 : List ℕ → List ℕ
  pub addr_text : ℕ → List ℕ
  pub number_text : ℕ → List ℕ
  -- encoding gives two lower case digits for each byte, and decoding is its inverse on those
  pub length-hex_encode : (b : List ℕ) → length (hex_encode b) ≡ 2 * length b
  pub hex_encode_chars : (b : List ℕ) → all is_hex_char (hex_encode b) ≡ true
  pub hex_encode-hex_decode :
      (s b : List ℕ) → all is_hex_char s ≡ true → hex_decode s ≡ some b → hex_encode b ≡ s
