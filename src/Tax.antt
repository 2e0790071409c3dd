-- ===== src/Tax.antt =====
-- The tax on transfers (packages/glow_protocol/src/querier.rs).
use glow_contracts.Base.{ℕ, ◌≤◌, ◌≡◌, Result, ok, ◌>>=◌, min, arith, >>=-eq-ok}
use glow_contracts.Platform.{Platform}

module _ (p : Platform) where
  open p use {add, sub, dec_add, mul_dec, div_dec, one, tax_rate, tax_cap, to_uint128}

  unfoldable pub compute_tax : ℕ → ℕ → Result ℕ
  compute_tax denom amount = do
    rate ← tax_rate
    cap ← tax_cap denom
    whole ← mul_dec amount one
    net ← div_dec amount (← dec_add one rate)
    due ← sub whole net
    ok (min due cap)

  -- The amount of the coin after the tax.
  unfoldable pub deduct_tax : ℕ → ℕ → Result ℕ
  unfolding compute_tax
  deduct_tax denom amount = do tax ← compute_tax denom amount; net ← sub amount tax; to_uint128 net

  -- The amount after tax, if there is one, is at most the amount before it.
  deduct_tax-le : (denom amount c : ℕ) → deduct_tax denom amount ≡ ok c → c ≤ amount
  unfolding deduct_tax
  deduct_tax-le denom amount c h =
      let (tax, e, h1) = >>=-eq-ok (compute_tax denom amount) _ h in
      let (net, e1, h2) = >>=-eq-ok (sub amount tax) _ h1 in
      omega (arith, p.sub_lem amount tax net e1, p.to_uint128_lem net c h2)
