-- ===== src/Gov/Polls/Progress.antt =====
-- A poll whose voting period is over can be ended.
use glow_contracts.Base.{
  ℕ, zero, suc, ◌+◌, ◌^◌, ◌≤◌, ◌<◌, ◌≡◌, refl, ok, some, List, [], ◌∷◌, ◌⊎◌, inl, inr, arith,
  Bool-cases, ltb, nat_beq, nat_eq, ◌||◌, false, Env, Addr, checked, checked_ok, then_ok, test_ok,
  if◌then◌else◌, or_fail, std, panic, not,
}
use glow_contracts.Dict.{lookup, measured-le-total, measured, total}
use glow_contracts.Platform.{Platform}
use glow_contracts.Gov.Types.{
  Store, Config, Poll, PollStatus, in_progress, passed, rejected, status_beq, Msg, transfer,
}
use glow_contracts.Gov.Polls.{end_poll, quorum_of, outcome, status_by_threshold, refund}
use glow_contracts.Gov.Books.{IsConsistent, held_deposit}

quorum_ok :
    (p : Platform) (w staked : ℕ)
    → (staked ≡ 0) ⊎ (w ≤ staked)
    → (r : ℕ × ℕ) × (quorum_of p w staked ≡ ok r)
unfolding quorum_of
quorum_ok p w zero h = ((0, 0), refl)
quorum_ok p w (suc n) h =
    let (c, e) = p.decimal_from_ratio_ok w (suc n) (omega arith) (omega arith) in
    ((c, suc n), rw e refl)

refund_ok :
    (p : Platform) (c : Config) (q : Poll) (token creator : Addr)
    → p.addr_humanize c.glow_token ≡ ok token
    → p.addr_humanize q.creator ≡ ok creator
    → (m : List Msg) × (refund p c q ≡ ok m)
unfolding refund
refund_ok p c q token creator known known' = elim (Bool-cases (nat_beq q.deposit_amount 0)) [
  | inl free ↦ ([], rw free refl)
  | inr paid ↦ (transfer token creator q.deposit_amount ∷ [], rw paid (rw known (rw known' refl)))
]

outcome_ok :
    (p : Platform) (c : Config) (q : Poll) (quorum : ℕ) (m : List Msg)
    → refund p c q ≡ ok m
    → (r : PollStatus × List Msg) × (outcome p c q (q.yes_votes + q.no_votes) quorum ≡ ok r)
unfolding outcome status_by_threshold
outcome_ok p c q quorum m known =
    elim (Bool-cases (nat_beq (q.yes_votes + q.no_votes) 0 || ltb quorum c.quorum)) [
      | inl low ↦ ((rejected, []), rw low refl)
      | inr enough ↦
          let (ratio, e) =
            p.decimal_from_ratio_ok q.yes_votes (q.yes_votes + q.no_votes) (ground arith)
              (omega arith) in
          rw enough (
            then_ok (status_by_threshold p c q.yes_votes (q.yes_votes + q.no_votes)) _
              {a = if ltb c.threshold ratio then passed else rejected} (rw e refl)
              (then_ok (refund p c q) _ known (_, refl)))
    ]

-- With consistent records, the end of a poll in progress whose end height is reached succeeds, if
-- its votes fit 128 bits and do not exceed the weight staked at its creation (or that is zero),
-- and the token and the creator have addresses.
pub end_poll_lem :
    (p : Platform) (s : Store) (env : Env) (id : ℕ) (q : Poll) (staked : ℕ) (token creator : Addr)
    → IsConsistent s
    → lookup id s.polls ≡ some q
    → q.status ≡ in_progress
    → q.end_height ≤ env.block.block_height
    → q.staked_amount ≡ some staked
    → q.yes_votes + q.no_votes < 2 ^ 128
    → (staked ≡ 0) ⊎ (q.yes_votes + q.no_votes ≤ staked)
    → p.addr_humanize s.config.glow_token ≡ ok token
    → p.addr_humanize q.creator ≡ ok creator
    → (r : Store × List Msg) × (end_poll p s env id ≡ ok r)
unfolding end_poll
end_poll_lem p s env id q staked token creator h found live over known fits bounded token_lem
      creator_lem =
    let (quorum, e1) = quorum_ok p (q.yes_votes + q.no_votes) staked bounded in
    let (m, e2) = refund_ok p s.config q token creator token_lem creator_lem in
    let (result, e3) = outcome_ok p s.config q quorum.0 m e2 in
    let (total, e4) =
      p.sub128_ok s.state.total_deposit q.deposit_amount
        (omega (arith, h.deposits, held, measured-le-total held_deposit id s.polls)) in
    then_ok (or_fail (lookup id s.polls) (std "poll not found")) _ {a = q} (rw found refl) (
      test_ok (not (status_beq q.status in_progress)) _ _ (rw live refl) (
        test_ok (ltb env.block.block_height q.end_height) _ _ (not_before _ _ over) (
          then_ok (checked 128 (q.yes_votes + q.no_votes)) _ (checked_ok 128 _ fits) (
            then_ok (or_fail q.staked_amount panic) _ {a = staked} (rw known refl) (
              then_ok (quorum_of p (q.yes_votes + q.no_votes) staked) _ e1 (
                then_ok (outcome p s.config q (q.yes_votes + q.no_votes) quorum.0) _ e3
                  (then_ok (p.sub128 s.state.total_deposit q.deposit_amount) _ e4 (_, refl))))))))
  where
    not_before : (a b : ℕ) → b ≤ a → ltb a b ≡ false
    not_before a b le = ground arith

    held : measured held_deposit (lookup id s.polls) ≡ q.deposit_amount
    held = rw found (rw live refl)
