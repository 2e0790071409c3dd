-- ===== src/Gov/Staking/Price.antt =====
-- What a share is worth when tokens are staked and withdrawn.
use glow_contracts.Base.{
  ℕ, zero, suc, ◌+◌, ◌*◌, ◌≤◌, ◌<◌, ◌≡◌, ◌∙◌, sym, ap, ok, some, none, Option, List, [], ◌∷◌, arith,
  ok-injective, max, nat_beq, false, ◌||◌, checked, divided, checked-eq-ok, Addr, MessageInfo,
  if◌then◌else◌, >>=-eq-ok,
}
use native.Mathlib.Nat.{mul-le-mul_right, div-mul-le_self}
use glow_contracts.Platform.{Platform}
use glow_contracts.Gov.Types.{Store, Msg, transfer}
use glow_contracts.Gov.Staking.{
  stake_voting_tokens, withdraw_voting_tokens, glow_balance, shares_withdrawn, amount_withdrawn,
  send_tokens,
}
use glow_contracts.Gov.Staking.Success.{
  stake_voting_tokens-Staked, withdraw_voting_tokens-Withdrawn,
}

-- The quotient is positive, and its multiple is at most the dividend.
divided-bounds : (a b c : ℕ) → divided a b ≡ ok c → (0 < b) × (c * b ≤ a)
divided-bounds a zero c h = ground arith
divided-bounds a (suc b) c h =
    let e = ok-injective h in rw (sym e) (omega arith, div-mul-le_self a (suc b))

max_price : (v r ts tb : ℕ) → 0 < tb → v * ts < r * tb + tb → v * ts < max r 1 * tb + tb
max_price v r ts tb pos h = omega (arith, mul-le-mul_right {m = r} {n = max r 1} tb (omega arith))

grown : (tb ts amount share : ℕ) → share * tb ≤ amount * ts → tb * (ts + share) ≤ (tb + amount) * ts
grown tb ts amount share h = omega arith

module _ (p : Platform) (s s' : Store) (msgs : List Msg) where
  amount-price :
      (amount : Option ℕ) (user locked ts tb w a : ℕ)
      → 0 < tb
      → shares_withdrawn p amount user locked ts tb ≡ ok w
      → amount_withdrawn p amount w ts tb ≡ ok a
      → (amount ≡ none → a * ts ≤ w * tb) × (a * ts < w * tb + tb)
  unfolding shares_withdrawn amount_withdrawn
  amount-price none user locked ts tb w a pos hw ha =
      let (product, e1, r1) = >>=-eq-ok (checked 128 (w * tb)) _ ha in
      let low = (divided-bounds product ts a r1).1 in
      (
        λ e. omega (arith, checked-eq-ok 128 (w * tb) e1),
        omega (arith, checked-eq-ok 128 (w * tb) e1),
      )
  amount-price (some v) user locked ts tb w a pos hw ha =
      let (r, e1, r1) = >>=-eq-ok (p.multiply_ratio128 v ts tb) _ hw in
      let price = max_price v r ts tb pos (p.multiply_ratio128_lem v ts tb r e1).1 in
      (λ e. cc, rw (sym (ok-injective ha)) (rw (sym (ok-injective r1)) price))

  -- A withdrawal of staked tokens that succeeds sends an amount and takes shares off the total:
  -- the amount times the total share is less than the shares times the total balance and one
  -- balance more, and at most the shares times the balance if no amount was given.
  pub withdraw_voting_tokens-price :
      (info : MessageInfo) (amount : Option ℕ) (balance tb : ℕ)
      → glow_balance p s.config s.state ≡ ok balance
      → tb + s.state.total_deposit ≡ balance
      → withdraw_voting_tokens p s info amount ≡ ok (s', msgs)
      → (token : Addr) × ((receiver : Addr) × ((a : ℕ) × ((burned : ℕ) × ((msgs
                  ≡ transfer token receiver a ∷ [])
                × ((burned + s'.state.total_share ≡ s.state.total_share)
                    × ((amount ≡ none → a * s.state.total_share ≤ burned * tb)
                        × (a * s.state.total_share < burned * tb + tb)))))))
  unfolding send_tokens
  withdraw_voting_tokens-price info amount balance tb known split run =
      let c = withdraw_voting_tokens-Withdrawn p s s' msgs info amount run in
      let (token, e1, r1) = >>=-eq-ok (p.addr_humanize s.config.glow_token) _ c.sent in
      let (receiver, e2, r2) = >>=-eq-ok (p.addr_humanize c.key) _ r1 in
      let same : c.total_balance ≡ tb =
        omega (arith, split, c.total_balance_lem, ok-injective (sym known ∙ c.balance_lem)) in
      let price =
        amount-price amount c.manager1.share c.locked_share s.state.total_share c.total_balance
          c.withdraw_share c.withdraw_amount
          (divided-bounds _ c.total_balance c.locked_share c.locked_share_lem).0
          c.withdraw_share_lem c.withdraw_amount_lem in
      (
        token,
        (
          receiver,
          (
            c.withdraw_amount,
            (
              c.withdraw_share,
              (
                sym (ok-injective r2),
                (
                  omega (arith, c.total_lem, ap (λ (t : Store). t.state.total_share) c.after),
                  rw same at price,
                ),
              ),
            ),
          ),
        ),
      )

  share-price :
      (tb ts amount share : ℕ)
      → 0 < tb
      → 0 < ts
      → (if nat_beq tb 0 || nat_beq ts 0 then ok amount else p.multiply_ratio128 amount ts tb)
        ≡ ok share
      → share * tb ≤ amount * ts
  share-price tb ts amount share pos pos' h =
      let both : (nat_beq tb 0 || nat_beq ts 0) ≡ false = ground arith in
      (p.multiply_ratio128_lem amount ts tb share (rw both at h)).0

  -- Staking does not lower what a share is worth: with a balance and shares that are not zero, the
  -- balance grows by the amount at least in proportion to the shares.
  pub stake_voting_tokens-price :
      (sender : Addr) (amount balance tb : ℕ)
      → glow_balance p s.config s.state ≡ ok balance
      → tb + (s.state.total_deposit + amount) ≡ balance
      → 0 < tb
      → 0 < s.state.total_share
      → stake_voting_tokens p s sender amount ≡ ok (s', msgs)
      → tb * s'.state.total_share ≤ (tb + amount) * s.state.total_share
  stake_voting_tokens-price sender amount balance tb known split pos pos' run =
      let c = stake_voting_tokens-Staked p s s' msgs sender amount run in
      let same : c.total_balance ≡ tb =
        omega (arith, split, c.total_balance_lem, ok-injective (sym known ∙ c.balance_lem)) in
      let fair =
        share-price c.total_balance s.state.total_share amount c.share (omega arith) pos'
          c.share_lem in
      omega (
        arith,
        grown tb s.state.total_share amount c.share (rw same at fair),
        ap (λ (t : Store). tb * t.state.total_share) c.after,
      )
