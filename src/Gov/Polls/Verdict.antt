-- ===== src/Gov/Polls/Verdict.antt =====
-- How a poll ends: the quorum and the threshold as products instead of rounded quotients, and that
-- a poll whose time is over can be ended.
use glow_contracts.Base.{
  ℕ, zero, suc, ◌+◌, ◌*◌, ◌≤◌, ◌<◌, ◌≡◌, ◌∙◌, sym, subst, ap, ok, some, List, [], ◌∷◌, ◌⊎◌, inl,
  inr, ◌↔◌, arith, >>=-eq-ok, ok-injective, Bool-cases, ltb, Bool, nat_beq, nat_eq, ◌||◌, true,
  false, Env, Addr, ltb_false→le, ltb→lt, if◌then◌else◌,
}
use native.Mathlib.Nat.{mul-le-mul_right}
use glow_contracts.Dict.{Dict, lookup, insert, lookup-insert}
use glow_contracts.Platform.{Platform}
use glow_contracts.Gov.Types.{Store, Config, Poll, PollStatus, passed, rejected, Msg, transfer}
use glow_contracts.Gov.Polls.{end_poll, quorum_of, outcome, status_by_threshold, refund, move_poll}
use glow_contracts.Gov.Polls.Success.{end_poll-Ended}

-- The weight that has voted is not zero, and at least the quorum of the staked weight; of no
-- staked weight, the quorum is reached only if it is zero.
abbrev pub IsQuorate : Platform → Config → Poll → ℕ → Type 0
IsQuorate p c q staked =
    (0 < q.yes_votes + q.no_votes)
    × ((staked ≡ 0 → c.quorum ≡ 0)
        × (c.quorum * staked ≤ (q.yes_votes + q.no_votes) * p.decimal_one))

-- The votes for the poll exceed the threshold of all votes by a smallest fraction at least.
abbrev pub IsApproved : Platform → Config → Poll → Type 0
IsApproved p c q = suc c.threshold * (q.yes_votes + q.no_votes) ≤ q.yes_votes * p.decimal_one

-- A number is at most a rounded quotient when its product is at most the dividend.
floor_iff : (x b c k : ℕ) → c * b ≤ x → x < c * b + b → (k ≤ c) ↔ (k * b ≤ x)
floor_iff x b c k h lt = (
  λ le. omega (arith, mul-le-mul_right b le),
  λ le. elim (Bool-cases (ltb c k)) [
    | inl more ↦ absurd (omega (arith, mul-le-mul_right {m = suc c} {n = k} b (ltb→lt c k more)))
    | inr less ↦ ltb_false→le c k less
  ],
)

by_quorum :
    (w quorum limit staked x : ℕ)
    → (limit ≤ quorum) ↔ (limit * staked ≤ x)
    → 0 < staked
    → (nat_beq w 0 || ltb quorum limit ≡ false)
      ↔ ((0 < w) × ((staked ≡ 0 → limit ≡ 0) × (limit * staked ≤ x)))
by_quorum w quorum limit staked x h pos = ground arith

quorum_of-IsQuorate :
    (p : Platform) (c : Config) (q : Poll) (staked quorum weight : ℕ)
    → quorum_of p (q.yes_votes + q.no_votes) staked ≡ ok (quorum, weight)
    → (nat_beq (q.yes_votes + q.no_votes) 0 || ltb quorum c.quorum ≡ false) ↔ IsQuorate p c q staked
unfolding quorum_of
quorum_of-IsQuorate p c q zero quorum weight h = ground arith
quorum_of-IsQuorate p c q (suc n) quorum weight h =
    let weight_voted = q.yes_votes + q.no_votes in
    let (ratio, e, r) = >>=-eq-ok (p.decimal_from_ratio weight_voted (suc n)) _ h in
    let (low, high) = p.decimal_from_ratio_lem weight_voted (suc n) ratio e in
    let iff = floor_iff (weight_voted * p.decimal_one) (suc n) ratio c.quorum low high in
    let same : ratio ≡ quorum = ap (λ (t : ℕ × ℕ). t.0) (ok-injective r) in
    by_quorum weight_voted quorum c.quorum (suc n) _ (rw same at iff) (omega arith)

threshold-IsApproved :
    (p : Platform) (c : Config) (q : Poll) (st : PollStatus)
    → status_by_threshold p c q.yes_votes (q.yes_votes + q.no_votes) ≡ ok st
    → (st ≡ passed) ↔ IsApproved p c q
unfolding status_by_threshold
threshold-IsApproved p c q st h =
    let weight_voted = q.yes_votes + q.no_votes in
    let (ratio, e, r) = >>=-eq-ok (p.decimal_from_ratio q.yes_votes weight_voted) _ h in
    let (low, high) = p.decimal_from_ratio_lem q.yes_votes weight_voted ratio e in
    let iff =
      floor_iff (q.yes_votes * p.decimal_one) weight_voted ratio (suc c.threshold) low high in
    by_threshold ratio c.threshold _ _ st iff (ok-injective r)
  where
    by_threshold :
        (ratio limit x y : ℕ) (st : PollStatus)
        → (suc limit ≤ ratio) ↔ (x ≤ y)
        → (if ltb limit ratio then passed else rejected) ≡ st
        → (st ≡ passed) ↔ (x ≤ y)
    by_threshold ratio limit x y st iff e = ground arith

refund_lem :
    (p : Platform) (c : Config) (q : Poll) (m : List Msg)
    → refund p c q ≡ ok m
    → 0 < q.deposit_amount
    → (token : Addr) × (creator : Addr) × (p.addr_humanize c.glow_token ≡ ok token)
      × (p.addr_humanize q.creator ≡ ok creator)
      × (m ≡ transfer token creator q.deposit_amount ∷ [])
unfolding refund
refund_lem p c q m h pos = elim (Bool-cases (nat_beq q.deposit_amount 0)) [
  | inl free ↦ absurd (ground arith)
  | inr paid ↦
      let (token, e1, r1) = >>=-eq-ok (p.addr_humanize c.glow_token) _ (rw paid at h) in
      let (creator, e2, r2) = >>=-eq-ok (p.addr_humanize q.creator) _ r1 in
      (token, creator, e1, e2, sym (ok-injective r2))
]

-- What the end of a poll decides.
pub record IsVerdict (p : Platform) (c : Config) (q : Poll) (staked : ℕ) (st : PollStatus)
    (msgs : List Msg) : Type 0 where
  pub passes : (st ≡ passed) ↔ (IsQuorate p c q staked × IsApproved p c q)
  pub ended : (st ≡ passed) ⊎ (st ≡ rejected)
  pub kept : (IsQuorate p c q staked → ⊥) → msgs ≡ []
  pub refunded :
      IsQuorate p c q staked
      → 0 < q.deposit_amount
      → (token : Addr) × (creator : Addr) × (p.addr_humanize c.glow_token ≡ ok token)
        × (p.addr_humanize q.creator ≡ ok creator)
        × (msgs ≡ transfer token creator q.deposit_amount ∷ [])

not_quorate-IsVerdict :
    (p : Platform) (c : Config) (q : Poll) (staked : ℕ) (st : PollStatus) (msgs : List Msg)
    → (IsQuorate p c q staked → ⊥)
    → st ≡ rejected
    → msgs ≡ []
    → IsVerdict p c q staked st msgs
not_quorate-IsVerdict p c q staked st msgs low r m = record {
  passes = (λ e. cc, λ b. absurd (low b.0));
  ended = inr r;
  kept = λ f. m;
  refunded = λ b pos. absurd (low b);
}

some_injective {ℓ} : {A : Type ℓ} {a b : A} → some a ≡ some b → a ≡ b
some_injective h = cc

contradiction : (b : Bool) → b ≡ true → b ≡ false → ⊥
contradiction b t f = cc

passed_or_rejected :
    (p : Platform) (c : Config) (q : Poll) (st : PollStatus)
    → status_by_threshold p c q.yes_votes (q.yes_votes + q.no_votes) ≡ ok st
    → (st ≡ passed) ⊎ (st ≡ rejected)
unfolding status_by_threshold
passed_or_rejected p c q st h = ground arith

outcome-IsVerdict :
    (p : Platform) (c : Config) (q : Poll) (staked quorum weight : ℕ) (st : PollStatus)
    (msgs : List Msg)
    → quorum_of p (q.yes_votes + q.no_votes) staked ≡ ok (quorum, weight)
    → outcome p c q (q.yes_votes + q.no_votes) quorum ≡ ok (st, msgs)
    → IsVerdict p c q staked st msgs
unfolding outcome
outcome-IsVerdict p c q staked quorum weight st msgs hq h =
    let iff = quorum_of-IsQuorate p c q staked quorum weight hq in
    elim (Bool-cases (nat_beq (q.yes_votes + q.no_votes) 0 || ltb quorum c.quorum)) [
      | inl low ↦
          let e = ok-injective (rw low at h) in
          not_quorate-IsVerdict p c q staked st msgs (λ b. contradiction _ low (iff.1 b))
            (sym (ap (λ t. t.0) e)) (sym (ap (λ t. t.1) e))
      | inr enough ↦
          let quorate = iff.0 enough in
          let (st1, e1, r1) =
            >>=-eq-ok (status_by_threshold p c q.yes_votes (q.yes_votes + q.no_votes)) _
              (rw enough at h) in
          let (m1, e2, r2) = >>=-eq-ok (refund p c q) _ r1 in
          let same = ok-injective r2 in
          let approved =
            threshold-IsApproved p c q st (e1 ∙ ap (λ (t : PollStatus × List Msg). ok t.0) same) in
          record {
            passes = (λ e. (quorate, approved.0 e), λ b. approved.1 b.1);
            ended =
                passed_or_rejected p c q st (e1 ∙ ap (λ (t : PollStatus × List Msg). ok t.0) same);
            kept = λ f. absurd (f quorate);
            refunded = λ b pos.
                refund_lem p c q msgs (e2 ∙ ap (λ (t : PollStatus × List Msg). ok t.1) same) pos;
          }
    ]

-- A poll that is ended passes if and only if votes were cast that are at least the quorum, as a
-- product with the weight staked at its creation, and those for it exceed the threshold of all of
-- them by a smallest fraction at least, and is rejected otherwise; no message is sent if the
-- quorum is not reached, and if it is, a deposit that is not zero is sent in the token to the
-- creator.
pub end_poll-IsVerdict :
    (p : Platform) (s s' : Store) (env : Env) (id : ℕ) (msgs : List Msg) (q : Poll) (staked : ℕ)
    → lookup id s.polls ≡ some q
    → q.staked_amount ≡ some staked
    → end_poll p s env id ≡ ok (s', msgs)
    → (q' : Poll) × ((lookup id s'.polls ≡ some q') × IsVerdict p s.config q staked q'.status msgs)
unfolding move_poll
end_poll-IsVerdict p s s' env id msgs q staked found known run =
    let c = end_poll-Ended p s s' env msgs id run in
    let same = some_injective (sym c.found ∙ found) in
    let verdict =
      outcome-IsVerdict p s.config c.poll c.staked c.quorum c.staked_weight c.status msgs
        c.quorum_lem c.outcome_lem in
    let counted : staked ≡ c.staked =
      some_injective (sym known ∙ (ap (λ (r : Poll). r.staked_amount) (sym same) ∙ c.staked_lem)) in
    (
      _,
      (
        ap (λ (t : Store). lookup id t.polls) c.after ∙ newest id _ s.polls,
        subst (λ r. IsVerdict p s.config r staked c.status msgs) same
            (subst (λ n. IsVerdict p s.config c.poll n c.status msgs) (sym counted) verdict),
      ),
    )
  where
    newest : (n : ℕ) (a : Poll) (d : Dict ℕ Poll) → lookup n (insert n a d) ≡ some a
    newest n a d = ground (arith, lookup-insert n n a d)
