-- ===== src/Platform/Testnet.antt =====
-- A platform with concrete functions, at which the assumptions on outside code hold: numbers of
-- 256 and 128 bits, fractions of 18 places, and queries that answer fixed values.
use glow_contracts.Base.{
  ℕ, zero, suc, ◌+◌, ◌-◌, ◌*◌, ◌/◌, ◌%◌, ◌^◌, ◌≤◌, ◌<◌, ◌≡◌, refl, sym, Bool, true, false,
  if◌then◌else◌, ltb, leb, nat_beq, inl, inr, List, [], ◌∷◌, Option, none, some, ◌++◌, length, all,
  is_hex_char, Result, ok, err, panic, minus, ok-injective, Option-cases, Duration, time, height,
  Expiration, at_time, at_height, never, Block, arith,
}
use native.Mathlib.Nat.{div-add-mod, mod-lt, div-le_of_le-mul, mul-le-mul_right}
use glow_contracts.Platform.{Platform}

abbrev within : ℕ → ℕ → Result ℕ
within bits n = if ltb n (2 ^ bits) then ok n else err panic

abbrev plus : ℕ → ℕ → ℕ → Result ℕ
plus bits a b = within bits (a + b)

abbrev ratio : ℕ → ℕ → Result ℕ
ratio a zero = err panic
ratio a (suc d) = within 256 (a / suc d)

pub within-eq : (bits n c : ℕ) → within bits n ≡ ok c → c ≡ n
within-eq bits n c h = ground arith

pub minus-eq : (a b c : ℕ) → minus a b ≡ ok c → c + b ≡ a
minus-eq a b c h = ground arith

pub ratio-eq : (a d c : ℕ) → ratio a d ≡ ok c → (c * d ≤ a) × (a < c * d + d)
ratio-eq a zero c h = ground arith
ratio-eq a (suc d) c h =
    let e = within-eq 256 (a / suc d) c h in
    rw e (
      omega (arith, div-add-mod a (suc d), mod-lt a {m = suc d} (omega arith)),
      omega (arith, div-add-mod a (suc d), mod-lt a {m = suc d} (omega arith)),
    )

-- `ratio`, for numbers of 128 bits.
abbrev ratio128 : ℕ → ℕ → Result ℕ
ratio128 a zero = err panic
ratio128 a (suc d) = within 128 (a / suc d)

pub ratio128-eq : (a d c : ℕ) → ratio128 a d ≡ ok c → (c * d ≤ a) × (a < c * d + d)
ratio128-eq a zero c h = ground arith
ratio128-eq a (suc d) c h =
    let e = within-eq 128 (a / suc d) c h in
    rw e (
      omega (arith, div-add-mod a (suc d), mod-lt a {m = suc d} (omega arith)),
      omega (arith, div-add-mod a (suc d), mod-lt a {m = suc d} (omega arith)),
    )

pub minus_ok : (a b : ℕ) → b ≤ a → (c : ℕ) × (minus a b ≡ ok c)
minus_ok a b h = (a - b, ground arith)

pub quotient_le : (a b n : ℕ) → a ≤ suc b → a * n / suc b ≤ n
quotient_le a b n h = div-le_of_le-mul (suc b) (mul-le-mul_right n h)

pub ratio128_ok :
    (a b : ℕ) → 0 < b → a ≤ b → (c : ℕ) × (ratio128 (a * 1_000_000_000_000_000_000) b ≡ ok c)
ratio128_ok a zero h le = absurd (omega arith)
ratio128_ok a (suc b) h le = (
  a * 1_000_000_000_000_000_000 / suc b,
  ground (arith, quotient_le a b 1_000_000_000_000_000_000 le),
)

abbrev digit : ℕ → ℕ
digit n = if ltb n 10 then 48 + n else if ltb n 16 then 87 + n else 48

abbrev digit_value : ℕ → ℕ
digit_value c = if ltb c 58 then c - 48 else c - 87

abbrev encode : List ℕ → List ℕ
encode [] = []
encode (b ∷ bs) = digit (b / 16) ∷ digit (b % 16) ∷ encode bs

abbrev decode : List ℕ → Option (List ℕ)
decode [] = some []
decode (x ∷ []) = none
decode (x ∷ y ∷ s) = elim (decode s) [
  | none ↦ none
  | some bs ↦ some ((digit_value x * 16 + digit_value y) ∷ bs)
]

pub length-encode : (b : List ℕ) → length (encode b) ≡ 2 * length b
length-encode [] = refl
length-encode (b ∷ bs) = omega (arith, length-encode bs)

digit_char : (n : ℕ) → is_hex_char (digit n) ≡ true
digit_char n = ground arith

pub encode_chars : (b : List ℕ) → all is_hex_char (encode b) ≡ true
encode_chars [] = refl
encode_chars (b ∷ bs) = ground (arith, digit_char (b / 16), digit_char (b % 16), encode_chars bs)

abbrev later : Expiration → Duration → Result Expiration
later (at_time t) (time d) = ok (at_time (t + d * 1_000_000_000))
later (at_height h) (height d) = ok (at_height (h + d))
later never d = ok never
later e d = err panic

digits_back :
    (x y : ℕ)
    → is_hex_char x ≡ true
    → is_hex_char y ≡ true
    → (digit ((digit_value x * 16 + digit_value y) / 16) ≡ x)
      × (digit ((digit_value x * 16 + digit_value y) % 16) ≡ y)
digits_back x y hx hy = ground arith

pub decode-encode : (s b : List ℕ) → all is_hex_char s ≡ true → decode s ≡ some b → encode b ≡ s
decode-encode [] b h e = ground arith
decode-encode (x ∷ []) b h e = ground arith
decode-encode (x ∷ y ∷ s) b h e = elim (Option-cases (decode s)) [
  | inl nothing ↦ ground arith
  | inr (bs, found) ↦ ground (arith, decode-encode s bs, digits_back x y)
]

abbrev since : Duration → Block → Expiration
since (time d) b = at_time (b.block_time + d * 1_000_000_000)
since (height h) b = at_height (b.block_height + h)

abbrev times : Duration → ℕ → Result Duration
times (time d) k = ok (time (d * k))
times (height h) k = ok (height (h * k))

abbrev expired : Expiration → Block → Bool
expired (at_time t) b = leb t b.block_time
expired (at_height h) b = leb h b.block_height
expired never b = false

abbrev places : ℕ
places = 1_000_000_000_000_000_000

abbrev bytes_of : ℕ → List ℕ
bytes_of n = n / 65536 % 256 ∷ n / 256 % 256 ∷ n % 256 ∷ []

abbrev pub testnet : Platform
testnet = record {
  add = plus 256;
  sub = minus;
  add_lem = λ a b. within-eq 256 (a + b);
  sub_lem = minus-eq;
  add128 = plus 128;
  add128_lem = λ a b. within-eq 128 (a + b);
  to_uint128 = within 128;
  to_uint128_lem = within-eq 128;
  multiply_ratio = λ a n d. ratio (a * n) d;
  multiply_ratio_lem = λ a n d c h. ratio-eq (a * n) d c h;
  sub128 = minus;
  sub128_lem = minus-eq;
  sub128_ok = minus_ok;
  multiply_ratio128 = λ a n d. ratio128 (a * n) d;
  multiply_ratio128_lem = λ a n d c h. ratio128-eq (a * n) d c h;
  decimal_one = places;
  decimal_add = plus 128;
  decimal_from_ratio = λ a b. ratio128 (a * places) b;
  mul_decimal = λ a d. ratio128 (a * d) places;
  decimal_one_pos = omega arith;
  decimal_add_lem = λ a b. within-eq 128 (a + b);
  decimal_from_ratio_lem = λ a b c h. ratio128-eq (a * places) b c h;
  decimal_from_ratio_ok = ratio128_ok;
  mul_decimal_lem = λ a d c h. ratio128-eq (a * d) places c h;
  one = places;
  percent = λ n. n * 10_000_000_000_000_000;
  dec_add = plus 256;
  dec_sub = minus;
  dec_mul = λ a b. ratio (a * b) places;
  dec_div = λ a b. ratio (a * places) b;
  dec_from_uint = λ a. within 256 (a * places);
  dec_from_ratio = λ a b. ratio (a * places) b;
  one_pos = omega arith;
  dec_add_lem = λ a b. within-eq 256 (a + b);
  dec_sub_lem = minus-eq;
  dec_from_uint_lem = λ a. within-eq 256 (a * places);
  dec_from_ratio_lem = λ a b c h. ratio-eq (a * places) b c h;
  dec_mul_lem = λ a b c h. ratio-eq (a * b) places c h;
  dec_div_lem = λ a b c h. ratio-eq (a * places) b c h;
  mul_dec = λ a d. ratio (a * d) places;
  div_dec = λ a d. ratio (a * places) d;
  mul_dec_lem = λ a d c h. ratio-eq (a * d) places c h;
  div_dec_lem = λ a d c h. ratio-eq (a * places) d c h;
  seconds = λ t. t / 1_000_000_000;
  from_seconds = λ s. s * 1_000_000_000;
  minus_seconds = λ t s. minus t (s * 1_000_000_000);
  seconds_lem = λ t. refl;
  from_seconds_lem = λ s. refl;
  minus_seconds_lem = λ t s. minus-eq t (s * 1_000_000_000);
  is_expired = expired;
  add_duration = later;
  after = since;
  mul_duration = times;
  is_expired_lem = λ t b. refl;
  is_expired_never = λ b. refl;
  add_duration_lem = λ t d e h. sym (ok-injective h);
  mul_duration_lem = λ d k e h. sym (ok-injective h);
  addr_validate = ok;
  addr_canonicalize = ok;
  addr_humanize = λ a. if nat_beq a 0 then err panic else ok a;
  pair_contract = λ factory denom token. ok 70;
  asset_deduct_tax = λ denom amount. ok amount;
  tax_rate = ok 1_000_000_000_000_000;
  tax_cap = λ denom. ok 1_000_000;
  exchange_rate = λ anchor at. ok 1_100_000_000_000_000_000;
  token_balance = λ token holder. ok 1_000_000_000;
  bank_balance = λ holder denom. ok 5_000_000_000;
  randomness = λ oracle round. ok (171 ∷ 205 ∷ 18 ∷ 52 ∷ []);
  voting_balance_at = λ ve account at. ok 0;
  total_voting_balance_at = λ ve at. ok 0;
  base64_decode = λ n. some (bytes_of n);
  hex_encode = encode;
  hex_decode = decode;
  keccak256 = λ b. b ++ b ++ b;
  addr_text = λ a. a ∷ [];
  number_text = λ n. n ∷ [];
  length-hex_encode = length-encode;
  hex_encode_chars = encode_chars;
  hex_encode-hex_decode = decode-encode;
}
