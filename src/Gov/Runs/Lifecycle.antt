-- ===== src/Gov/Runs/Lifecycle.antt =====
-- The life of a poll as one who keeps no records sees it: its status and its votes.
use glow_contracts.Base.{
  ℕ, ◌+◌, ◌≤◌, ◌≡◌, refl, sym, subst, ok, some, none, Option, List, nat_beq, nat_beq_iff, nat_eq,
  Env, MessageInfo, Addr, Bool-cases, inl, inr, ◌⊎◌, arith, Option-cases,
}
use glow_contracts.Dict.{Dict, lookup, insert, lookup-insert}
use glow_contracts.Platform.{Platform}
use glow_contracts.Gov.Types.{
  Store, Poll, PollStatus, in_progress, passed, rejected, executed, expired, ExecuteMsg,
  PollExecuteMsg, Msg, VoteOption, yes, no,
}
use glow_contracts.Gov.Polls.{
  create_poll, end_poll, execute_poll, expire_poll, cast_vote, add_vote, move_poll,
}
use glow_contracts.Gov.Polls.Success.{
  create_poll-Created, end_poll-Ended, execute_poll-Executed, expire_poll-Expired, cast_vote-Voted,
}
use glow_contracts.Gov.Staking.{stake_voting_tokens, withdraw_voting_tokens}
use glow_contracts.Gov.Staking.Success.{
  stake_voting_tokens-Staked, withdraw_voting_tokens-Withdrawn, compute_locked_balance-polls,
}
use glow_contracts.Gov.Contract.{execute}
use glow_contracts.Gov.Contract.Cases.{execute-cases}
use glow_contracts.Gov.Runs.{Reach, here, next, calls}
use glow_contracts.Gov.Runs.Books.{Reach-IsConsistent}
use glow_contracts.Gov.Books.{IsConsistent}
use glow_contracts.Gov.Books.Calls.{outcome-status, add_vote_lem}

pub data Moves : Option (PollStatus × (ℕ × ℕ)) → Option (PollStatus × (ℕ × ℕ)) → Type 0 where
  keeps : {o : Option (PollStatus × (ℕ × ℕ))} → Moves o o
  opens : Moves none (some (in_progress, (0, 0)))
  gains :
      {y n y' n' : ℕ}
      → y ≤ y'
      → n ≤ n'
      → Moves (some (in_progress, (y, n))) (some (in_progress, (y', n')))
  passes : {v : ℕ × ℕ} → Moves (some (in_progress, v)) (some (passed, v))
  fails : {v : ℕ × ℕ} → Moves (some (in_progress, v)) (some (rejected, v))
  executes : {v : ℕ × ℕ} → Moves (some (passed, v)) (some (executed, v))
  expires : {v : ℕ × ℕ} → Moves (some (passed, v)) (some (expired, v))

pub data Lives (o : Option (PollStatus × (ℕ × ℕ))) : Option (PollStatus × (ℕ × ℕ)) → Type 0 where
  start : Lives o o
  then : {m n : Option (PollStatus × (ℕ × ℕ))} → Lives o m → Moves m n → Lives o n

abbrev pub phase_of : Option Poll → Option (PollStatus × (ℕ × ℕ))
phase_of none = none
phase_of (some q) = some (q.status, (q.yes_votes, q.no_votes))

-- What is seen of the poll under an id.
abbrev pub phase : Store → ℕ → Option (PollStatus × (ℕ × ℕ))
phase s id = phase_of (lookup id s.polls)

unused :
    (s : Store) (id : ℕ) → IsConsistent s → id ≡ s.state.poll_count + 1 → lookup id s.polls ≡ none
unused s id h new = elim (Option-cases (lookup id s.polls)) [
  | inl nothing ↦ nothing
  | inr (q, found) ↦ absurd (omega (arith, h.ids id q found))
]

-- When one poll moves, every poll moves or stays.
Moves-insert :
    (id j : ℕ) (q' : Poll) (d : Dict ℕ Poll)
    → Moves (phase_of (lookup id d)) (phase_of (some q'))
    → Moves (phase_of (lookup j d)) (phase_of (lookup j (insert id q' d)))
Moves-insert id j q' d m = rw (lookup-insert j id q' d) (elim (Bool-cases (nat_beq id j)) [
  | inl same ↦ rw same (rw (sym ((nat_beq_iff id j).0 same)) m)
  | inr other ↦ rw other keeps
])

Moves-put :
    (s : Store) (id j : ℕ) (q q' : Poll)
    → lookup id s.polls ≡ some q
    → Moves (phase_of (some q)) (phase_of (some q'))
    → Moves (phase s j) (phase_of (lookup j (insert id q' s.polls)))
Moves-put s id j q q' found m =
    Moves-insert id j q' s.polls
      (subst (λ o. Moves (phase_of o) (phase_of (some q'))) (sym found) m)

-- A poll under a new status, with its votes.
Moves-status :
    (s s1 : Store) (id n j : ℕ) (q q' : Poll) (st : PollStatus)
    → lookup id s.polls ≡ some q
    → s1.polls ≡ s.polls
    → Moves (phase_of (some q)) (some (st, (q'.yes_votes, q'.no_votes)))
    → Moves (phase s j) (phase (move_poll s1 id n q' st) j)
unfolding move_poll
Moves-status s s1 id n j q q' st found same m =
    rw same (Moves-put s id j q (record q' { status = st }) found m)

end-Moves :
    (q : Poll) (st : PollStatus)
    → q.status ≡ in_progress
    → (st ≡ passed) ⊎ (st ≡ rejected)
    → Moves (phase_of (some q)) (some (st, (q.yes_votes, q.no_votes)))
end-Moves q st live (inl h) = rw live (rw h passes)
end-Moves q st live (inr h) = rw live (rw h fails)

vote-Moves :
    (p : Platform) (q q' : Poll) (vote : VoteOption) (amount : ℕ)
    → add_vote p q vote amount ≡ ok q'
    → q.status ≡ in_progress
    → Moves (phase_of (some q)) (phase_of (some q'))
vote-Moves p q q' vote amount h live =
    let (votes, (same, (kept, dep))) = add_vote_lem p q q' vote amount 0 0 h in
    rw kept (rw live (gains (omega (arith, votes yes)) (omega (arith, votes no))))

module _ (p : Platform) (s s' : Store) (env : Env) (msgs : List Msg) (h : IsConsistent s)
    (j : ℕ) where
  create_poll-Moves :
      (proposer : Addr) (amount : ℕ) (title description : List ℕ) (link : Option (List ℕ))
      (execute_msgs : Option (List PollExecuteMsg))
      → create_poll p s env proposer amount title description link execute_msgs ≡ ok (s', msgs)
      → Moves (phase s j) (phase s' j)
  create_poll-Moves proposer amount title description link execute_msgs run =
      let c =
        create_poll-Created p s s' env msgs proposer amount title description link execute_msgs
          run in
      subst (λ t. Moves (phase s j) (phase t j)) (sym c.after)
        (Moves-insert c.poll.id j c.poll s.polls
          (rw c.live (rw c.no_yes (rw c.no_no (rw (unused s c.poll.id h c.next_id) opens)))))

  end_poll-Moves : (id : ℕ) → end_poll p s env id ≡ ok (s', msgs) → Moves (phase s j) (phase s' j)
  end_poll-Moves id run =
      let c = end_poll-Ended p s s' env msgs id run in
      subst (λ t. Moves (phase s j) (phase t j)) (sym c.after)
        (Moves-status s _ id c.poll.id j c.poll _ c.status c.found refl (
          end-Moves c.poll c.status c.live
            (outcome-status p s.config c.poll _ c.quorum c.status msgs c.outcome_lem)))

  execute_poll-Moves :
      (id : ℕ) → execute_poll p s env id ≡ ok (s', msgs) → Moves (phase s j) (phase s' j)
  execute_poll-Moves id run =
      let c = execute_poll-Executed p s s' env msgs id run in
      subst (λ t. Moves (phase s j) (phase t j)) (sym c.after)
        (Moves-status s s id id j c.poll c.poll executed c.found refl (rw c.done executes))

  expire_poll-Moves :
      (id : ℕ) → expire_poll p s env id ≡ ok (s', msgs) → Moves (phase s j) (phase s' j)
  expire_poll-Moves id run =
      let c = expire_poll-Expired p s s' env msgs id run in
      subst (λ t. Moves (phase s j) (phase t j)) (sym c.after)
        (Moves-status s s id id j c.poll c.poll expired c.found refl (rw c.done expires))

  cast_vote-Moves :
      (info : MessageInfo) (id : ℕ) (vote : VoteOption)
      → cast_vote p s env info id vote ≡ ok (s', msgs)
      → Moves (phase s j) (phase s' j)
  cast_vote-Moves info id vote run =
      let c = cast_vote-Voted p s s' env msgs info id vote run in
      subst (λ t. Moves (phase s j) (phase t j)) (sym c.after)
        (Moves-put s id j c.poll c.poll' c.found
          (vote-Moves p c.poll c.poll' vote c.amount c.vote_lem c.live))

  configures-Moves : s' ≡ record s { config = s'.config } → Moves (phase s j) (phase s' j)
  configures-Moves e = subst (λ t. Moves (phase s j) (phase t j)) (sym e) keeps

  stake_voting_tokens-Moves :
      (sender : Addr) (amount : ℕ)
      → stake_voting_tokens p s sender amount ≡ ok (s', msgs)
      → Moves (phase s j) (phase s' j)
  stake_voting_tokens-Moves sender amount run =
      let c = stake_voting_tokens-Staked p s s' msgs sender amount run in
      subst (λ t. Moves (phase s j) (phase t j)) (sym c.after) keeps

  withdraw_voting_tokens-Moves :
      (info : MessageInfo) (amount : Option ℕ)
      → withdraw_voting_tokens p s info amount ≡ ok (s', msgs)
      → Moves (phase s j) (phase s' j)
  withdraw_voting_tokens-Moves info amount run =
      let c = withdraw_voting_tokens-Withdrawn p s s' msgs info amount run in
      subst (λ t. Moves (phase s j) (phase t j)) (sym c.after)
        (subst (λ d. Moves (phase s j) (phase_of (lookup j d)))
          (sym
            (compute_locked_balance-polls s c.s1 c.manager c.manager1 c.key c.locked c.locked_lem))
          keeps)

  -- A call that succeeds on consistent records moves every poll as its life allows.
  pub execute-Moves :
      (info : MessageInfo) (msg : ExecuteMsg)
      → execute p s env info msg ≡ ok (s', msgs)
      → Moves (phase s j) (phase s' j)
  execute-Moves = execute-cases p s s' env msgs (Moves (phase s j) (phase s' j)) (record {
    configures = configures-Moves;
    creates = create_poll-Moves;
    stakes = stake_voting_tokens-Moves;
    withdraws = withdraw_voting_tokens-Moves;
    votes = cast_vote-Moves;
    ends = end_poll-Moves;
    executes = execute_poll-Moves;
    expires = expire_poll-Moves;
  })

-- For records that are consistent, what every sequence of calls that succeed does to a poll is a
-- sequence of moves of its life: it opens in progress without votes, gains votes while in
-- progress, passes or is rejected with its votes, and once passed is executed or expires.
pub Reach-Lives :
    (s t : Store) (id : ℕ) → Reach s t → IsConsistent s → Lives (phase s id) (phase t id)
Reach-Lives s t id here h = start
Reach-Lives s t id (next r (calls p u v env info msg msgs run)) h =
    then (Reach-Lives s u id r h)
      (execute-Moves p u v env msgs (Reach-IsConsistent s u r h) id info msg run)
