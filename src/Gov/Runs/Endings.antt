-- ===== src/Gov/Runs/Endings.antt =====
-- The end of polls over whole runs (end_poll of contracts/gov/src/contract.rs).
use glow_contracts.Base.{
  ℕ, ◌+◌, ◌^◌, ◌≤◌, ◌<◌, ◌≡◌, ◌∙◌, sym, subst, ap, ok, some, Option, List, nat_beq, nat_eq, Env,
  MessageInfo, Addr, Bool-cases, inl, inr, ◌⊎◌, with_ok, ok-injective, or_default,
}
use glow_contracts.Dict.{Dict, lookup, insert, lookup-insert}
use glow_contracts.Platform.{Platform}
use glow_contracts.Gov.Types.{
  Store, Poll, PollStatus, in_progress, ExecuteMsg, InstantiateMsg, PollExecuteMsg, Msg, VoteOption,
  yes, no,
}
use glow_contracts.Gov.Polls.{
  create_poll, end_poll, execute_poll, expire_poll, cast_vote, add_vote, move_poll,
}
use glow_contracts.Gov.Polls.Success.{
  create_poll-Created, end_poll-Ended, execute_poll-Executed, expire_poll-Expired, cast_vote-Voted,
}
use glow_contracts.Gov.Polls.Progress.{end_poll_lem}
use glow_contracts.Gov.Staking.{stake_voting_tokens, withdraw_voting_tokens}
use glow_contracts.Gov.Staking.Success.{
  stake_voting_tokens-Staked, withdraw_voting_tokens-Withdrawn, compute_locked_balance-polls,
}
use glow_contracts.Gov.Contract.{execute, instantiate, validate_quorum, validate_threshold}
use glow_contracts.Gov.Contract.Cases.{execute-cases}
use glow_contracts.Gov.Runs.{Reach, here, next, calls}
use glow_contracts.Gov.Runs.Books.{run-IsConsistent}

-- The weight that was staked is known of a poll, and of all polls.
HasWeight : Poll → Type 0
HasWeight q = (w : ℕ) × (q.staked_amount ≡ some w)

HaveWeights : Dict ℕ Poll → Type 0
HaveWeights d = (j : ℕ) (q : Poll) → lookup j d ≡ some q → HasWeight q

HaveWeights-insert :
    (id : ℕ) (q' : Poll) (d : Dict ℕ Poll)
    → HaveWeights d
    → HasWeight q'
    → HaveWeights (insert id q' d)
unfolding HaveWeights
HaveWeights-insert id q' d h w j q found =
    let e = sym (lookup-insert j id q' d) ∙ found in
    elim (Bool-cases (nat_beq id j)) [
      | inl same ↦ subst HasWeight (ap (λ o. or_default q' o) (rw same at e)) w
      | inr other ↦ h j q (rw other at e)
    ]

-- A poll that is put under a new status keeps its weight.
move_poll-HaveWeights :
    (s : Store) (id n : ℕ) (q : Poll) (st : PollStatus)
    → HaveWeights s.polls
    → HasWeight q
    → HaveWeights (move_poll s id n q st).polls
unfolding move_poll HasWeight
move_poll-HaveWeights s id n q st h w = HaveWeights-insert id (record q { status = st }) s.polls h w

add_vote-HasWeight :
    (p : Platform) (q q' : Poll) (vote : VoteOption) (amount : ℕ)
    → add_vote p q vote amount ≡ ok q'
    → HasWeight q
    → HasWeight q'
unfolding add_vote HasWeight
add_vote-HasWeight p q q' yes amount run w =
    with_ok (p.add128 q.yes_votes amount) _ run λ votes e r. subst HasWeight (ok-injective r) w
add_vote-HasWeight p q q' no amount run w =
    with_ok (p.add128 q.no_votes amount) _ run λ votes e r. subst HasWeight (ok-injective r) w

module _ (p : Platform) (s s' : Store) (env : Env) (msgs : List Msg) (h : HaveWeights s.polls) where
  creates :
      (proposer : Addr) (amount : ℕ) (title description : List ℕ) (link : Option (List ℕ))
      (execute_msgs : Option (List PollExecuteMsg))
      → create_poll p s env proposer amount title description link execute_msgs ≡ ok (s', msgs)
      → HaveWeights s'.polls
  unfolding HasWeight
  creates proposer amount title description link execute_msgs run =
      let c =
        create_poll-Created p s s' env msgs proposer amount title description link execute_msgs
          run in
      subst (λ (t : Store). HaveWeights t.polls) (sym c.after)
        (HaveWeights-insert c.poll.id c.poll s.polls h c.weighed)

  votes :
      (info : MessageInfo) (id : ℕ) (vote : VoteOption)
      → cast_vote p s env info id vote ≡ ok (s', msgs)
      → HaveWeights s'.polls
  unfolding HaveWeights
  votes info id vote run =
      let c = cast_vote-Voted p s s' env msgs info id vote run in
      subst (λ (t : Store). HaveWeights t.polls) (sym c.after)
        (HaveWeights-insert id c.poll' s.polls h
          (add_vote-HasWeight p c.poll c.poll' vote c.amount c.vote_lem (h id c.poll c.found)))

  ends : (id : ℕ) → end_poll p s env id ≡ ok (s', msgs) → HaveWeights s'.polls
  unfolding HasWeight
  ends id run =
      let c = end_poll-Ended p s s' env msgs id run in
      subst (λ (t : Store). HaveWeights t.polls) (sym c.after)
        (move_poll-HaveWeights _ id c.poll.id _ c.status h (c.staked, c.staked_lem))

  executes : (id : ℕ) → execute_poll p s env id ≡ ok (s', msgs) → HaveWeights s'.polls
  unfolding HaveWeights
  executes id run =
      let c = execute_poll-Executed p s s' env msgs id run in
      subst (λ (t : Store). HaveWeights t.polls) (sym c.after)
        (move_poll-HaveWeights s id id c.poll _ h (h id c.poll c.found))

  expires : (id : ℕ) → expire_poll p s env id ≡ ok (s', msgs) → HaveWeights s'.polls
  unfolding HaveWeights
  expires id run =
      let c = expire_poll-Expired p s s' env msgs id run in
      subst (λ (t : Store). HaveWeights t.polls) (sym c.after)
        (move_poll-HaveWeights s id id c.poll _ h (h id c.poll c.found))

  stakes :
      (sender : Addr) (amount : ℕ)
      → stake_voting_tokens p s sender amount ≡ ok (s', msgs)
      → HaveWeights s'.polls
  stakes sender amount run =
      let c = stake_voting_tokens-Staked p s s' msgs sender amount run in
      subst (λ (t : Store). HaveWeights t.polls) (sym c.after) h

  withdraws :
      (info : MessageInfo) (amount : Option ℕ)
      → withdraw_voting_tokens p s info amount ≡ ok (s', msgs)
      → HaveWeights s'.polls
  withdraws info amount run =
      let c = withdraw_voting_tokens-Withdrawn p s s' msgs info amount run in
      subst (λ (t : Store). HaveWeights t.polls) (sym c.after)
        (subst HaveWeights
          (sym
            (compute_locked_balance-polls s c.s1 c.manager c.manager1 c.key c.locked c.locked_lem))
          h)

  execute-HaveWeights :
      (info : MessageInfo) (msg : ExecuteMsg)
      → execute p s env info msg ≡ ok (s', msgs)
      → HaveWeights s'.polls
  execute-HaveWeights = execute-cases p s s' env msgs (HaveWeights s'.polls) (record {
    configures = λ e. subst (λ (t : Store). HaveWeights t.polls) (sym e) h;
    creates = creates;
    stakes = stakes;
    withdraws = withdraws;
    votes = votes;
    ends = ends;
    executes = executes;
    expires = expires;
  })

Reach-HaveWeights : (s t : Store) → Reach s t → HaveWeights s.polls → HaveWeights t.polls
Reach-HaveWeights s t here h = h
Reach-HaveWeights s t (next r (calls p u v env info msg msgs run)) h =
    execute-HaveWeights p u v env msgs (Reach-HaveWeights s u r h) info msg run

instantiate-HaveWeights :
    (p : Platform) (env : Env) (info : MessageInfo) (msg : InstantiateMsg) (s : Store)
    → instantiate p env info msg ≡ ok s
    → HaveWeights s.polls
unfolding instantiate HaveWeights
instantiate-HaveWeights p env info msg s run =
    with_ok (validate_quorum p msg.quorum) _ run λ v1 e1 r1.
      with_ok (validate_threshold p msg.threshold) _ r1 λ v2 e2 r2.
        with_ok (p.addr_canonicalize info.sender) _ r2 λ owner e3 r3.
          with_ok (p.addr_canonicalize env.contract) _ r3 λ contract e4 r4.
            subst (λ (t : Store). HaveWeights t.polls) (ok-injective r4) (λ j q e. cc)

-- From the instantiation of the governance contract on, after any sequence of calls that succeed,
-- the end of a poll in progress whose end height is reached succeeds, if its votes fit 128 bits
-- and are at most the weight that was staked at its creation (or that is zero), and the token and
-- the creator have addresses.
pub run-end_poll :
    (p : Platform) (env now : Env) (info : MessageInfo) (msg : InstantiateMsg) (s t : Store)
    (id : ℕ) (q : Poll) (token creator : Addr)
    → instantiate p env info msg ≡ ok s
    → Reach s t
    → lookup id t.polls ≡ some q
    → q.status ≡ in_progress
    → q.end_height ≤ now.block.block_height
    → q.yes_votes + q.no_votes < 2 ^ 128
    → ((w : ℕ) → q.staked_amount ≡ some w → (w ≡ 0) ⊎ (q.yes_votes + q.no_votes ≤ w))
    → p.addr_humanize t.config.glow_token ≡ ok token
    → p.addr_humanize q.creator ≡ ok creator
    → (r : Store × List Msg) × (end_poll p t now id ≡ ok r)
unfolding HaveWeights HasWeight
run-end_poll p env now info msg s t id q token creator run r found live over fits bounded token_lem
      creator_lem =
    let weights = Reach-HaveWeights s t r (instantiate-HaveWeights p env info msg s run) in
    let (w, known) = weights id q found in
    end_poll_lem p t now id q w token creator (run-IsConsistent p env info msg s t run r) found live
      over known fits (bounded w known) token_lem creator_lem
