-- ===== src/Base/Outcome.antt =====
-- Errors as values: `StdError` and the contracts' own errors, and `panic` for a Rust panic (an
-- overflow, or an unwrap of nothing). All of them abort the transaction.
use Prim.Native.Nat.{ℕ}
use Prim.Native.String.{String}
use mathlib.Core.Path.{◌≡◌, refl}
use mathlib.Core.Logic.{◌⊎◌, inl, inr}
use mathlib.Core.Bool.{Bool, true, false}
use mathlib.Core.Option.{Option, none, some}
use mathlib.Core.List.{List}
use native.Mathlib.Omega.{arith}
use glow_contracts.Base.Time.{Expiration}
use glow_contracts.Base.GovErrors.{GovError}
use glow_contracts.Base.AirdropErrors.{AirdropError}

-- `ContractError` of the lotto, with what its payload carries.
pub data LottoError : Type 0 where
  invalid_deposit_instantiation : ℕ → LottoError
  contract_paused : LottoError
  invalid_boost_config : LottoError
  already_registered : LottoError
  not_registered : LottoError
  zero_deposit_amount : LottoError
  invalid_sequence : List ℕ → LottoError
  invalid_ticket_price : LottoError
  invalid_encoded_tickets : LottoError
  invalid_holder_sequence : List ℕ → LottoError
  gift_to_self : LottoError
  zero_gift_amount : LottoError
  insufficient_post_transaction_depositor_balance : ℕ → ℕ → ℕ → LottoError
  zero_sponsorship_amount : LottoError
  lottery_already_started : LottoError
  lottery_not_ready : Expiration → LottoError
  no_depositor_savings_aust_to_withdraw : LottoError
  specified_withdraw_amount_is_zero : LottoError
  specified_withdraw_amount_too_big : ℕ → ℕ → LottoError
  withdrawing_too_many_tickets : ℕ → ℕ → LottoError
  insufficient_funds : ℕ → ℕ → LottoError
  no_sponsor_lottery_deposit : LottoError
  insufficient_pool_funds : ℕ → ℕ → LottoError
  insufficient_lottery_funds : LottoError
  max_unbonding_claims : LottoError
  invalid_claim_lottery_not_awarded : ℕ → LottoError
  invalid_claim_prize_already_claimed : ℕ → LottoError
  insufficient_claimable_funds : LottoError
  invalid_prize_distribution : LottoError
  invalid_reserve_factor : LottoError
  invalid_split_factor : LottoError
  invalid_withdrawal_fee : LottoError
  invalid_unbonding_period : LottoError
  invalid_first_lottery_exec : LottoError
  invalid_epoch_interval : LottoError
  invalid_max_holders_outside_bounds : LottoError
  invalid_max_holders_attempted_decrease : LottoError
  invalid_lottery_interval : LottoError
  invalid_lottery_next_time : LottoError
  invalid_lottery_execution_funds : LottoError
  invalid_lottery_execution_tickets : LottoError
  invalid_lottery_prize_execution : LottoError
  invalid_lottery_prize_execution_expired : LottoError
  invalid_lottery_prize_execution_funds : LottoError
  invalid_epoch_execution : LottoError
  max_tickets_per_depositor_exceeded : ℕ → ℕ → LottoError
  unauthorized : LottoError

pub data Error : Type 0 where
  panic : Error
  std : String → Error
  lotto : LottoError → Error
  gov : GovError → Error
  airdrop : AirdropError → Error

pub data Result {ℓ} (A : Type ℓ) : Type ℓ where
  err : Error → Result A
  ok : A → Result A

infixl 5 ◌>>=◌ ◌>>◌
abbrev pub ◌>>=◌ {μ ν} :
    {A : Type μ} {B : Type ν} (first : Result A) (next : A → Result B) → Result B
err e >>= next = err e
ok a >>= next = next a

abbrev pub or_fail {ℓ} : {A : Type ℓ} → Option A → Error → Result A
or_fail none e = err e
or_fail (some a) e = ok a

abbrev pub fail_if : Bool → Error → Result (Unit {0})
fail_if true e = err e
fail_if false e = ok tt

abbrev pub ◌>>◌ {ℓ} : {B : Type ℓ} (first : Result (Unit {0})) (next : Result B) → Result B
first >> next = first >>= λ done. next

-- Inversion of a successful bind.
pub >>=-eq-ok {μ ν} :
    {A : Type μ} {B : Type ν} (first : Result A) (next : A → Result B) {r : B}
    → (first >>= next) ≡ ok r
    → (a : A) × (first ≡ ok a) × (next a ≡ ok r)
>>=-eq-ok (err e) next h = cc
>>=-eq-ok (ok a) next h = (a, refl, h)

pub ok-injective {ℓ} : {A : Type ℓ} {a b : A} → ok a ≡ ok b → a ≡ b
ok-injective h = cc

pub fail_if->>-eq-ok {ℓ} :
    {B : Type ℓ} (c : Bool) (e : Error) (k : Result B) {b : B}
    → (fail_if c e >> k) ≡ ok b
    → (c ≡ false) × (k ≡ ok b)
fail_if->>-eq-ok true e k h = cc
fail_if->>-eq-ok false e k h = (refl, h)

-- The parts of a result that is put together from two calls.
pub ok_parts {ℓ κ μ} :
    {A : Type ℓ} {B : Type κ} {C : Type μ} (x : A × B) (n : C) {a : A} {b : B} {c : C}
    → ◌≡◌ {A = Result (A × (B × C))} (ok (x.0, (x.1, n))) (ok (a, (b, c)))
    → (ok x ≡ ok (a, b)) × (n ≡ c)
ok_parts x n h = ground arith

-- The same, with the value and the equations handed on.
pub with_ok {ℓ κ μ} :
    {A : Type ℓ} {B : Type κ} {C : Type μ} (m : Result A) (f : A → Result B) {b : B}
    → (m >>= f) ≡ ok b
    → ((a : A) → m ≡ ok a → f a ≡ ok b → C)
    → C
with_ok (ok a) f h k = k a refl h
with_ok (err e) f h k = cc

pub with_test {μ ℓ} :
    {B : Type ℓ} {C : Type μ} (c : Bool) (e : Error) (k : Result B) {b : B}
    → (fail_if c e >> k) ≡ ok b
    → (c ≡ false → k ≡ ok b → C)
    → C
with_test true e k h f = cc
with_test false e k h f = f refl h

pub or_fail-eq-ok {ℓ} :
    {A : Type ℓ} (o : Option A) (e : Error) {a : A} → or_fail o e ≡ ok a → o ≡ some a
or_fail-eq-ok none e h = cc
or_fail-eq-ok (some a) e h = cc

pub Result-cases {ℓ} :
    {A : Type ℓ} (r : Result A) → ((e : Error) × (r ≡ err e)) ⊎ ((a : A) × (r ≡ ok a))
Result-cases (err e) = inl (e, refl)
Result-cases (ok a) = inr (a, refl)

-- A call succeeds when its parts do.
pub then_ok {ℓ κ} :
    {A : Type ℓ} {B : Type κ} (first : Result A) (next : A → Result B) {a : A}
    → first ≡ ok a
    → (b : B) × (next a ≡ ok b)
    → (b : B) × ((first >>= next) ≡ ok b)
then_ok (err e) next h k = cc
then_ok (ok x) next h (b, k) = (b, cc)

pub test_ok {κ} :
    {B : Type κ} (c : Bool) (e : Error) (k : Result B)
    → c ≡ false
    → (b : B) × (k ≡ ok b)
    → (b : B) × ((fail_if c e >> k) ≡ ok b)
test_ok true e k h r = cc
test_ok false e k h r = r
