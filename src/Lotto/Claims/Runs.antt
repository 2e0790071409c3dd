-- ===== src/Lotto/Claims/Runs.antt =====
-- Claims of prizes in sequences of calls (contracts/lotto/src/contract.rs).
use glow_contracts.Base.{
  ℕ, ◌+◌, ◌≤◌, ◌<◌, ◌≡◌, ◌≢◌, ◌∙◌, refl, sym, ap, subst, Option, none, some, List, [], ◌∷◌, ok,
  with_ok, with_test, nat_beq, nat_beq_iff, ltb, lotto, ok-injective, arith, inl, inr, true,
  Bool-cases, if◌then◌else◌, pair_eq, fail_if->>-eq-ok, gift_to_self, insufficient_claimable_funds,
  insufficient_funds,
}
use glow_contracts.Dict.{lookup, lookup-insert}
use glow_contracts.Platform.{Platform}
use glow_contracts.Tax.{deduct_tax}
use glow_contracts.Lotto.Types.{Store, Env, MessageInfo, Msg, Addr, PrizeInfo}
use glow_contracts.Lotto.Storage.{read_depositor_info, store_depositor_info}
use glow_contracts.Lotto.Books.{store_depositor_info-Stored}
use glow_contracts.Lotto.Tickets.{handle_depositor_ticket_updates}
use glow_contracts.Lotto.Tickets.Purchase.{handle_depositor_ticket_updates_lem}
use glow_contracts.Lotto.Deposit.{
  check_not_started, execute_deposit, execute_gift, execute_claim_tickets,
}
use glow_contracts.Lotto.Deposit.Accounting.{deposit-Deposited}
use glow_contracts.Lotto.Withdraw.Accounting.{execute_withdraw-Withdrawn}
use glow_contracts.Lotto.Prize.{execute_prize}
use glow_contracts.Lotto.Prize.Winners.{prize_of}
use glow_contracts.Lotto.Steps.{
  Step, deposits, gives, withdraws, sponsors, withdraws_sponsorship, draws, claims, claims_prizes,
  claims_tickets,
}
use glow_contracts.Lotto.Claims.{claim_one, claim_all, execute_claim_lottery}
use glow_contracts.Lotto.Claims.Once.{claim_one-Claimed}
use glow_contracts.Lotto.Claims.Kept.{
  KeepsClaims, KeepsClaims-same, execute_sponsor-prizes, execute_sponsor_withdraw-prizes,
  execute_claim_unbonded-prizes, execute_lottery-prizes, execute_prize-KeepsClaims,
}

-- How often a lottery is in a list.
abbrev pub times : ℕ → List ℕ → ℕ
times id [] = 0
times id (j ∷ ids) = (if nat_beq j id then 1 else 0) + times id ids

abbrev IsPaid : Addr → ℕ → Store → Type 0
IsPaid a id s = (prize_of s.prizes (id, a)).claimed ≡ true

abbrev HasPrize : Addr → ℕ → Store → Type 0
HasPrize a id s = (x : PrizeInfo) × (lookup (id, a) s.prizes ≡ some x)

module _ (p : Platform) (a : Addr) where
  claim_one-KeepsClaims :
      (id : ℕ) (s s' : Store) (ust glow ust' glow' : ℕ)
      → claim_one p a id s ust glow ≡ ok (s', (ust', glow'))
      → KeepsClaims s.prizes s'.prizes
  claim_one-KeepsClaims id s s' ust glow ust' glow' h j b k =
      elim (claim_one-Claimed p a id s s' ust glow ust' glow' h) [
        | inl (nothing, same, unpaid) ↦ rw same k
        | inr (x, found, unclaimed, marked) ↦
            rw marked (
              ground
                (arith, k, lookup-insert (j, b) (id, a) (record x { claimed = true }) s.prizes))
      ]

  claim_one-HasPrize :
      (id j : ℕ) (s s' : Store) (ust glow ust' glow' : ℕ)
      → claim_one p a id s ust glow ≡ ok (s', (ust', glow'))
      → HasPrize a j s
      → HasPrize a j s'
  claim_one-HasPrize id j s s' ust glow ust' glow' h (y, there) =
      elim (claim_one-Claimed p a id s s' ust glow ust' glow' h) [
        | inl (nothing, same, unpaid) ↦ (y, rw same there)
        | inr (x, found, unclaimed, marked) ↦
            let paid : PrizeInfo = record x { claimed = true } in
            let e = lookup-insert (j, a) (id, a) paid s.prizes in
            elim (Bool-cases (nat_beq id j)) [
              | inl same ↦ (paid, rw marked (ground (arith, e)))
              | inr other ↦ (y, rw marked (ground (arith, e, there)))
            ]
      ]

  -- A claim of a lottery finds its prize unpaid, and leaves it paid.
  claim_one-IsPaid :
      (id : ℕ) (s s' : Store) (ust glow ust' glow' : ℕ)
      → claim_one p a id s ust glow ≡ ok (s', (ust', glow'))
      → HasPrize a id s
      → IsPaid a id s'
  claim_one-IsPaid id s s' ust glow ust' glow' h (y, there) =
      elim (claim_one-Claimed p a id s s' ust glow ust' glow' h) [
        | inl (nothing, same, unpaid) ↦ cc
        | inr (x, found, unclaimed, marked) ↦
            rw marked
              (ground (arith, lookup-insert (id, a) (id, a) (record x { claimed = true }) s.prizes))
      ]

  claim_one-unpaid :
      (id : ℕ) (s s' : Store) (ust glow ust' glow' : ℕ)
      → claim_one p a id s ust glow ≡ ok (s', (ust', glow'))
      → IsPaid a id s
      → ⊥
  claim_one-unpaid id s s' ust glow ust' glow' h k =
      elim (claim_one-Claimed p a id s s' ust glow ust' glow' h) [
        | inl (nothing, same, unpaid) ↦ let bad = rw nothing at k in cc
        | inr (x, found, unclaimed, marked) ↦ let bad = rw found at k in cc
      ]

  claim_all-KeepsClaims :
      (ids : List ℕ) (s s' : Store) (ust glow ust' glow' : ℕ)
      → claim_all p a ids s ust glow ≡ ok (s', (ust', glow'))
      → KeepsClaims s.prizes s'.prizes
  unfolding claim_all
  claim_all-KeepsClaims [] s s' ust glow ust' glow' h j b k =
      subst (λ (t : Store × (ℕ × ℕ)). (prize_of t.0.prizes (j, b)).claimed ≡ true) (ok-injective h)
        k
  claim_all-KeepsClaims (id ∷ ids) s s' ust glow ust' glow' h j b k =
      with_ok (claim_one p a id s ust glow) _ h λ t e h1.
        claim_all-KeepsClaims ids t.0 s' t.1.0 t.1.1 ust' glow' h1 j b
          (claim_one-KeepsClaims id s t.0 ust glow t.1.0 t.1.1 e j b k)

  -- A paid lottery is not in a list that is claimed with success.
  claim_all-unlisted :
      (ids : List ℕ) (id : ℕ) (s s' : Store) (ust glow ust' glow' : ℕ)
      → claim_all p a ids s ust glow ≡ ok (s', (ust', glow'))
      → IsPaid a id s
      → times id ids ≡ 0
  unfolding claim_all
  claim_all-unlisted [] id s s' ust glow ust' glow' h k = refl
  claim_all-unlisted (j ∷ ids) id s s' ust glow ust' glow' h k =
      with_ok (claim_one p a j s ust glow) _ h λ t e h1.
        let rest =
          claim_all-unlisted ids id t.0 s' t.1.0 t.1.1 ust' glow' h1
            (claim_one-KeepsClaims j s t.0 ust glow t.1.0 t.1.1 e id a k) in
        elim (Bool-cases (nat_beq j id)) [
          | inl same ↦ absurd (
              claim_one-unpaid j s t.0 ust glow t.1.0 t.1.1 e
                (subst (λ n. IsPaid a n s) (sym ((nat_beq_iff j id).0 same)) k))
          | inr other ↦ rw other (omega (arith, rest))
        ]

  -- A lottery with a prize is in it once at most, and is paid then.
  claim_all-listed :
      (ids : List ℕ) (id : ℕ) (s s' : Store) (ust glow ust' glow' : ℕ)
      → claim_all p a ids s ust glow ≡ ok (s', (ust', glow'))
      → HasPrize a id s
      → (times id ids ≤ 1) × (0 < times id ids → IsPaid a id s')
  unfolding claim_all
  claim_all-listed [] id s s' ust glow ust' glow' h k = (omega arith, λ pos. absurd (omega arith))
  claim_all-listed (j ∷ ids) id s s' ust glow ust' glow' h k =
      with_ok (claim_one p a j s ust glow) _ h λ t e h1. elim (Bool-cases (nat_beq j id)) [
        | inl same ↦
            let paid =
              claim_one-IsPaid j s t.0 ust glow t.1.0 t.1.1 e
                (subst (λ n. HasPrize a n s) (sym ((nat_beq_iff j id).0 same)) k) in
            let now = subst (λ n. IsPaid a n t.0) ((nat_beq_iff j id).0 same) paid in
            let none_left = claim_all-unlisted ids id t.0 s' t.1.0 t.1.1 ust' glow' h1 now in
            (
              rw same (omega (arith, none_left)),
              λ pos. claim_all-KeepsClaims ids t.0 s' t.1.0 t.1.1 ust' glow' h1 id a now,
            )
        | inr other ↦
            let rest =
              claim_all-listed ids id t.0 s' t.1.0 t.1.1 ust' glow' h1
                (claim_one-HasPrize j id s t.0 ust glow t.1.0 t.1.1 e k) in
            (
              rw other (omega (arith, rest.0)),
              λ pos. let more = rw other at pos in rest.1 (omega (arith, more)),
            )
      ]

-- The list that a claim of prizes goes through.
claimed_list :
    (p : Platform) (s s' : Store) (env : Env) (info : MessageInfo) (ids : List ℕ) (msgs : List Msg)
    → execute_claim_lottery p s env info ids ≡ ok (s', msgs)
    → (t : Store × (ℕ × ℕ)) × (claim_all p info.sender ids s 0 0 ≡ ok t) × (s' ≡ t.0)
unfolding execute_claim_lottery
claimed_list p s s' env info ids msgs h =
    let denom = s.config.stable_denom in
    with_ok (check_not_started s) _ h λ _ e h1.
      with_ok (claim_all p info.sender ids s 0 0) _ h1 λ t e1 h2.
        with_test (nat_beq t.1.0 0) (lotto insufficient_claimable_funds) _ h2 λ _ h3.
          with_ok (deduct_tax p denom t.1.0) _ h3 λ net e3 h4.
            with_ok (p.bank_balance env.contract denom) _ h4 λ balance e4 h5.
              with_ok (p.to_uint128 balance) _ h5 λ available e5 h6.
                with_test (ltb available t.1.0) (lotto (insufficient_funds t.1.0 balance)) _ h6
                  λ _ h7. (t, e1, sym (ap (λ (r : Store × List Msg). r.0) (ok-injective h7)))

execute_claim_tickets-prizes :
    (p : Platform) (s s' : Store) (env : Env) (info : MessageInfo) (encoded : ℕ) (msgs : List Msg)
    → execute_claim_tickets p s env info encoded ≡ ok (s', msgs)
    → s'.prizes ≡ s.prizes
unfolding execute_claim_tickets
execute_claim_tickets-prizes p s s' env info encoded msgs h =
    let a = info.sender in
    let i = read_depositor_info p s a in
    with_ok (p.exchange_rate s.config.anchor_contract env.block.block_height) _ h λ rate e1 h1.
      with_ok (check_not_started s) _ h1 λ _ e2 h2.
        with_ok (handle_depositor_ticket_updates p env s.config s.pool a i encoded rate 0 0 s) _ h2
          λ x e3 h3.
            with_ok (store_depositor_info p x.0 a x.1.0 env.block.block_height) _ h3 λ s2 e4 h4.
              let bought =
                handle_depositor_ticket_updates_lem p env s.config s.pool a i x.1.0 encoded rate 0 0
                  s x.0 x.1.1 e3 in
              let stored = store_depositor_info-Stored p x.0 s2 a x.1.0 env.block.block_height e4 in
              sym (ap (λ (r : Store × List Msg). r.0.prizes) (ok-injective h4))
              ∙ ap (λ (t : Store). t.prizes) stored.frame
              ∙ ap (λ (t : Store). t.prizes) bought.frame

Step-KeepsClaims : {s t : Store} → Step s t → KeepsClaims s.prizes t.prizes
unfolding execute_deposit execute_gift
Step-KeepsClaims (deposits p s s' env info encoded operator msgs h) =
    KeepsClaims-same s s'
      (deposit-Deposited p s s' env info none operator encoded msgs h).prizes_lem
Step-KeepsClaims (gives p s s' env info encoded to operator msgs h) =
    let (other, e) = fail_if->>-eq-ok (nat_beq to info.sender) (lotto gift_to_self) _ h in
    KeepsClaims-same s s'
      (deposit-Deposited p s s' env info (some to) operator encoded msgs e).prizes_lem
Step-KeepsClaims (withdraws p s s' env info amount instant msgs h) =
    KeepsClaims-same s s'
      (execute_withdraw-Withdrawn p s s' env info amount instant msgs h).prizes_lem
Step-KeepsClaims (sponsors p s s' env info award distribution msgs h) =
    KeepsClaims-same s s' (execute_sponsor-prizes p s s' env info msgs award distribution h)
Step-KeepsClaims (withdraws_sponsorship p s s' env info msgs h) =
    KeepsClaims-same s s' (execute_sponsor_withdraw-prizes p s s' env info msgs h)
Step-KeepsClaims (draws p s s' env info msgs h) =
    KeepsClaims-same s s' (execute_lottery-prizes p s s' env info msgs h)
Step-KeepsClaims (claims_tickets p s s' env info encoded msgs h) =
    KeepsClaims-same s s' (execute_claim_tickets-prizes p s s' env info encoded msgs h)
Step-KeepsClaims (claims p s s' env info msgs h) =
    KeepsClaims-same s s' (execute_claim_unbonded-prizes p s s' env info msgs h)
Step-KeepsClaims (claims_prizes p s s' env info ids msgs h) =
    let (t, e, after) = claimed_list p s s' env info ids msgs h in
    subst (λ (u : Store). KeepsClaims s.prizes u.prizes) (sym after)
      (claim_all-KeepsClaims p info.sender ids s t.0 0 0 t.1.0 t.1.1 e)

-- The states that the calls of `Step` and awards of prizes lead to.
pub data Later (s : Store) : Store → Type 1 where
  here : Later s s
  steps : {t u : Store} → Later s t → Step t u → Later s u
  awards :
      {t : Store} (p : Platform) (u : Store) (env : Env) (info : MessageInfo) (limit : Option ℕ)
      (msgs : List Msg)
      → Later s t
      → execute_prize p t env info limit ≡ ok (u, msgs)
      → Later s u

Later-KeepsClaims : (s t : Store) → Later s t → KeepsClaims s.prizes t.prizes
Later-KeepsClaims s _ here j b k = k
Later-KeepsClaims s u (steps {t} r step) j b k =
    Step-KeepsClaims step j b (Later-KeepsClaims s t r j b k)
Later-KeepsClaims s _ (awards {t} p u env info limit msgs r run) j b k =
    execute_prize-KeepsClaims p t u env info limit msgs run j b (Later-KeepsClaims s t r j b k)

-- After a claim of prizes that succeeds, a lottery in its list for which the sender had a prize is
-- in it once, and a claim by the same sender of any list with that lottery does not succeed, in
-- any state that the calls of the step relation and awards of prizes lead to, whatever the block
-- and the answers of the platform.
pub execute_claim_lottery-once :
    (p q : Platform) (s s' t : Store) (env later : Env) (info : MessageInfo) (ids ids' : List ℕ)
    (id : ℕ) (x : PrizeInfo) (msgs : List Msg)
    → execute_claim_lottery p s env info ids ≡ ok (s', msgs)
    → lookup (id, info.sender) s.prizes ≡ some x
    → 0 < times id ids
    → Later s' t
    → 0 < times id ids'
    → (times id ids ≡ 1)
      × ((r : Store × List Msg) → execute_claim_lottery q t later info ids' ≢ ok r)
execute_claim_lottery-once p q s s' t env later info ids ids' id x msgs h found listed r again =
    let a = info.sender in
    let (u, e, after) = claimed_list p s s' env info ids msgs h in
    let (once, paid) = claim_all-listed p a ids id s u.0 0 0 u.1.0 u.1.1 e (x, found) in
    let kept =
      Later-KeepsClaims s' t r id a (subst (λ v. IsPaid a id v) (sym after) (paid listed)) in
    (
      omega (arith, once, listed),
      λ y run.
          let (v, e', after') = claimed_list q t y.0 later info ids' y.1 run in
          let nothing = claim_all-unlisted q a ids' id t v.0 0 0 v.1.0 v.1.1 e' kept in
          absurd (omega (arith, nothing, again)),
    )
