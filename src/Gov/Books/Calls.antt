-- ===== src/Gov/Books/Calls.antt =====
-- The calls on polls keep the records consistent.
use glow_contracts.Base.{
  ℕ, ◌+◌, ◌≡◌, refl, sym, subst, ok, Option, List, arith, >>=-eq-ok, Addr, Env, MessageInfo, ◌⊎◌,
  inl, inr,
}
use glow_contracts.Platform.{Platform}
use glow_contracts.Gov.Types.{
  Store, Poll, PollStatus, Config, in_progress, passed, rejected, executed, expired, VoteOption,
  yes, no, PollExecuteMsg, Msg,
}
use glow_contracts.Gov.Polls.{
  create_poll, end_poll, execute_poll, expire_poll, cast_vote, add_vote, outcome,
  status_by_threshold,
}
use glow_contracts.Gov.Polls.Success.{
  create_poll-Created, end_poll-Ended, execute_poll-Executed, expire_poll-Expired, cast_vote-Voted,
}
use glow_contracts.Gov.Books.{IsConsistent, held_deposit, counted, votes_for}
use glow_contracts.Gov.Books.Polls.{
  move_poll-IsConsistent, open_poll-IsConsistent, record_vote-IsConsistent,
}

-- A poll that is ended has passed or is rejected.
pub outcome-status :
    (p : Platform) (config : Config) (q : Poll) (weight quorum : ℕ) (st : PollStatus) (m : List Msg)
    → outcome p config q weight quorum ≡ ok (st, m)
    → (st ≡ passed) ⊎ (st ≡ rejected)
unfolding outcome status_by_threshold
outcome-status p config q weight quorum st m h = ground arith

-- A vote adds its weight to the votes for its option, and changes nothing else of the poll.
pub add_vote_lem :
    (p : Platform) (q q' : Poll) (vote : VoteOption) (amount id : ℕ) (voter : Addr)
    → add_vote p q vote amount ≡ ok q'
    → ((o : VoteOption)
        → votes_for o q'
          ≡ votes_for o q + counted o id (id, voter) (record { vote = vote; balance = amount }))
      × ((q'.id ≡ q.id) × ((q'.status ≡ q.status) × (q'.deposit_amount ≡ q.deposit_amount)))
unfolding add_vote
add_vote_lem p q q' yes amount id voter h =
    let (votes, e, r) = >>=-eq-ok (p.add128 q.yes_votes amount) _ h in
    let sum = p.add128_lem q.yes_votes amount votes e in
    (elim [ yes ↦ ground arith | no ↦ ground arith ], ground arith)
add_vote_lem p q q' no amount id voter h =
    let (votes, e, r) = >>=-eq-ok (p.add128 q.no_votes amount) _ h in
    let sum = p.add128_lem q.no_votes amount votes e in
    (elim [ yes ↦ ground arith | no ↦ ground arith ], ground arith)

live_deposit : (q : Poll) → q.status ≡ in_progress → held_deposit q ≡ q.deposit_amount
live_deposit q h = rw h refl

passed_deposit : (q : Poll) → q.status ≡ passed → held_deposit q ≡ 0
passed_deposit q h = rw h refl

ended_deposit :
    (q : Poll) (st : PollStatus)
    → (st ≡ passed) ⊎ (st ≡ rejected)
    → held_deposit (record q { status = st }) ≡ 0
ended_deposit q st (inl h) = rw h refl
ended_deposit q st (inr h) = rw h refl

module _ (p : Platform) (s s' : Store) (env : Env) (msgs : List Msg) (h : IsConsistent s) where
  -- A poll that is created leaves the records consistent.
  pub create_poll-IsConsistent :
      (proposer : Addr) (amount : ℕ) (title description : List ℕ) (link : Option (List ℕ))
      (execute_msgs : Option (List PollExecuteMsg))
      → create_poll p s env proposer amount title description link execute_msgs ≡ ok (s', msgs)
      → IsConsistent s'
  create_poll-IsConsistent proposer amount title description link execute_msgs run =
      let c =
        create_poll-Created p s s' env msgs proposer amount title description link execute_msgs
          run in
      subst IsConsistent (sym c.after) (
        open_poll-IsConsistent s c.poll.id c.total c.poll h c.next_id refl c.live c.no_yes c.no_no
          (rw c.deposit c.total_lem))

  -- A poll that is ended leaves the records consistent.
  pub end_poll-IsConsistent : (id : ℕ) → end_poll p s env id ≡ ok (s', msgs) → IsConsistent s'
  end_poll-IsConsistent id run =
      let c = end_poll-Ended p s s' env msgs id run in
      subst IsConsistent (sym c.after) (
        move_poll-IsConsistent s id c.poll.id c.total c.poll _ c.status h c.found
          (h.ids id c.poll c.found).0 refl refl refl refl
          (omega (
            arith,
            c.total_lem,
            live_deposit c.poll c.live,
            ended_deposit c.poll c.status
                (outcome-status p s.config c.poll _ c.quorum c.status msgs c.outcome_lem),
          )))

  -- A poll that is executed leaves the records consistent.
  pub execute_poll-IsConsistent :
      (id : ℕ) → execute_poll p s env id ≡ ok (s', msgs) → IsConsistent s'
  execute_poll-IsConsistent id run =
      let c = execute_poll-Executed p s s' env msgs id run in
      subst IsConsistent (sym c.after) (
        move_poll-IsConsistent s id id s.state.total_deposit c.poll c.poll executed h c.found refl
          refl refl refl refl (omega (arith, passed_deposit c.poll c.done)))

  -- A poll that is expired leaves the records consistent.
  pub expire_poll-IsConsistent : (id : ℕ) → expire_poll p s env id ≡ ok (s', msgs) → IsConsistent s'
  expire_poll-IsConsistent id run =
      let c = expire_poll-Expired p s s' env msgs id run in
      subst IsConsistent (sym c.after) (
        move_poll-IsConsistent s id id s.state.total_deposit c.poll c.poll expired h c.found refl
          refl refl refl refl (omega (arith, passed_deposit c.poll c.done)))

  -- A vote that is cast leaves the records consistent.
  pub cast_vote-IsConsistent :
      (info : MessageInfo) (id : ℕ) (vote : VoteOption)
      → cast_vote p s env info id vote ≡ ok (s', msgs)
      → IsConsistent s'
  cast_vote-IsConsistent info id vote run =
      let c = cast_vote-Voted p s s' env msgs info id vote run in
      let (votes, (same, (kept, dep))) =
        add_vote_lem p c.poll c.poll' vote c.amount id c.voter c.vote_lem in
      subst IsConsistent (sym c.after) (
        record_vote-IsConsistent s id c.voter _ c.poll c.poll' h c.found c.free same kept dep votes)
