-- ===== src/Gov/Runs/Once.antt =====
-- What happens once at most: a vote of an account on a poll, and the execution of a poll.
use glow_contracts.Base.{
  ℕ, ◌≡◌, ◌∙◌, refl, sym, subst, ok, err, some, none, Option, List, nat_eq, pair_eq, Env,
  MessageInfo, Addr, ap, ok-injective, Result-cases, inl, inr, arith, Error, pair_beq_iff,
}
use glow_contracts.Dict.{Dict, lookup, insert, lookup-insert}
use glow_contracts.Platform.{Platform}
use glow_contracts.Gov.Types.{
  Store, Poll, PollStatus, passed, executed, ExecuteMsg, Msg, VoteOption, VoterInfo, TokenManager,
}
use glow_contracts.Gov.Polls.{execute_poll, cast_vote, move_poll}
use glow_contracts.Gov.Polls.Success.{
  create_poll-Created, end_poll-Ended, execute_poll-Executed, expire_poll-Expired, cast_vote-Voted,
}
use glow_contracts.Gov.Staking.Success.{
  stake_voting_tokens-Staked, withdraw_voting_tokens-Withdrawn,
}
use glow_contracts.Gov.Contract.{execute}
use glow_contracts.Gov.Contract.Cases.{execute-cases}
use glow_contracts.Gov.Books.{IsConsistent}
use glow_contracts.Gov.Books.Stakes.{nothing-locked}
use glow_contracts.Gov.Books.Calls.{execute_poll-IsConsistent, cast_vote-IsConsistent}
use glow_contracts.Gov.Runs.{Reach, here, next, calls}
use glow_contracts.Gov.Runs.Books.{Reach-IsConsistent}
use glow_contracts.Gov.Runs.Lifecycle.{
  Moves, keeps, opens, gains, passes, fails, executes, expires, Lives, start, then, phase, phase_of,
  Reach-Lives,
}

executed-Moves :
    (v : ℕ × ℕ) (m o : Option (PollStatus × (ℕ × ℕ)))
    → Moves m o
    → m ≡ some (executed, v)
    → o ≡ some (executed, v)
executed-Moves v m o keeps h = h
executed-Moves v m o opens h = cc
executed-Moves v m o (gains a b) h = cc
executed-Moves v m o passes h = cc
executed-Moves v m o fails h = cc
executed-Moves v m o executes h = cc
executed-Moves v m o expires h = cc

-- A poll that is executed stays so.
executed_stays :
    (v : ℕ × ℕ) (o : Option (PollStatus × (ℕ × ℕ)))
    → Lives (some (executed, v)) o
    → o ≡ some (executed, v)
executed_stays v o start = refl
executed_stays v o (then l m) = executed-Moves v _ o m (executed_stays v _ l)

-- Another vote leaves a recorded one as it is.
other_vote :
    (d : Dict (ℕ × Addr) VoterInfo) (k j : ℕ × Addr) (v w : VoterInfo)
    → lookup j d ≡ none
    → lookup k d ≡ some v
    → lookup k (insert j w d) ≡ some v
other_vote d k j v w free found = ground (arith, pair_beq_iff j k, lookup-insert k j w d)

module _ (p : Platform) (s s' : Store) (env : Env) (msgs : List Msg) (h : IsConsistent s)
    (k : ℕ × Addr) (v : VoterInfo) (found : lookup k s.poll_voters ≡ some v) where
  keeps-votes :
      (t : Store) → s' ≡ t → t.poll_voters ≡ s.poll_voters → lookup k s'.poll_voters ≡ some v
  keeps-votes t e same = ap (λ (u : Store). lookup k u.poll_voters) e ∙ (ap (lookup k) same ∙ found)

  -- A recorded vote stays as it is through every call that succeeds.
  execute-votes :
      (info : MessageInfo) (msg : ExecuteMsg)
      → execute p s env info msg ≡ ok (s', msgs)
      → lookup k s'.poll_voters ≡ some v
  unfolding move_poll
  execute-votes = execute-cases p s s' env msgs (lookup k s'.poll_voters ≡ some v) (record {
    configures = λ e. keeps-votes _ e refl;
    creates = λ proposer amount title description link execute_msgs run.
        keeps-votes _
          (create_poll-Created p s s' env msgs proposer amount title description link execute_msgs
            run).after
          refl;
    stakes = λ sender amount run.
        keeps-votes _ (stake_voting_tokens-Staked p s s' msgs sender amount run).after refl;
    withdraws = λ info amount run.
        let c = withdraw_voting_tokens-Withdrawn p s s' msgs info amount run in
        keeps-votes _ c.after (
          ap (λ (t : Store × (TokenManager × ℕ)). t.0.poll_voters)
            (ok-injective (
              sym c.locked_lem
              ∙ nothing-locked s c.manager c.key (h.unlocked c.key c.manager c.found))));
    votes = λ info id vote run.
        let c = cast_vote-Voted p s s' env msgs info id vote run in
        ap (λ (u : Store). lookup k u.poll_voters) c.after
        ∙ other_vote s.poll_voters k (id, c.voter) v _ c.free found;
    ends = λ id run. keeps-votes _ (end_poll-Ended p s s' env msgs id run).after refl;
    executes = λ id run. keeps-votes _ (execute_poll-Executed p s s' env msgs id run).after refl;
    expires = λ id run. keeps-votes _ (expire_poll-Expired p s s' env msgs id run).after refl;
  })

Reach-votes :
    (s t : Store) (k : ℕ × Addr) (v : VoterInfo)
    → Reach s t
    → IsConsistent s
    → lookup k s.poll_voters ≡ some v
    → lookup k t.poll_voters ≡ some v
Reach-votes s t k v here h found = found
Reach-votes s t k v (next r (calls p u w env info msg msgs run)) h found =
    execute-votes p u w env msgs (Reach-IsConsistent s u r h) k v (Reach-votes s u k v r h found)
      info msg run

-- With consistent records, after a vote of an account on a poll that succeeds, another vote of it
-- on that poll is an error, in any state that calls that succeed lead to, with either option and
-- in any block.
pub cast_vote-once :
    (p : Platform) (s s' t : Store) (env env' : Env) (info : MessageInfo) (id : ℕ)
    (vote vote' : VoteOption) (msgs : List Msg)
    → IsConsistent s
    → cast_vote p s env info id vote ≡ ok (s', msgs)
    → Reach s' t
    → (e : Error) × (cast_vote p t env' info id vote' ≡ err e)
cast_vote-once p s s' t env env' info id vote vote' msgs h run r =
    let c = cast_vote-Voted p s s' env msgs info id vote run in
    let recorded =
      Reach-votes s' t (id, c.voter) _ r (cast_vote-IsConsistent p s s' env msgs h info id vote run)
        (ap (λ (u : Store). lookup (id, c.voter) u.poll_voters) c.after
          ∙ newest c.voter id _ s.poll_voters) in
    elim (Result-cases (cast_vote p t env' info id vote')) [
      | inl failed ↦ failed
      | inr ((u, m), again) ↦
          let d = cast_vote-Voted p t u env' m info id vote' again in
          absurd
            (clash c.voter d.voter t recorded d.free (ok-injective (sym c.voter_lem ∙ d.voter_lem)))
    ]
  where
    newest :
        (voter : Addr) (n : ℕ) (v : VoterInfo) (d : Dict (ℕ × Addr) VoterInfo)
        → lookup (n, voter) (insert (n, voter) v d) ≡ some v
    newest voter n v d = ground (arith, lookup-insert (n, voter) (n, voter) v d)

    clash :
        (a b : Addr) (u : Store) {v : VoterInfo}
        → lookup (id, a) u.poll_voters ≡ some v
        → lookup (id, b) u.poll_voters ≡ none
        → a ≡ b
        → ⊥
    clash a b u f g e = cc

-- With consistent records, after an execution of a poll that succeeds, another execution of it is
-- an error, in any state that calls that succeed lead to and in any block.
pub execute_poll-once :
    (p q : Platform) (s s' t : Store) (env env' : Env) (id : ℕ) (msgs : List Msg)
    → IsConsistent s
    → execute_poll p s env id ≡ ok (s', msgs)
    → Reach s' t
    → (e : Error) × (execute_poll q t env' id ≡ err e)
unfolding move_poll
execute_poll-once p q s s' t env env' id msgs h run r =
    let c = execute_poll-Executed p s s' env msgs id run in
    let done = executed_stays _ _ (
      subst (λ o. Lives o (phase t id))
        (ap (λ (u : Store). phase u id) c.after ∙ now id c.poll s.polls)
        (Reach-Lives s' t id r (execute_poll-IsConsistent p s s' env msgs h id run))) in
    elim (Result-cases (execute_poll q t env' id)) [
      | inl failed ↦ failed
      | inr ((u, m), again) ↦
          let d = execute_poll-Executed q t u env' m id again in
          absurd (clash _ d.poll t d.found d.done done)
    ]
  where
    now :
        (n : ℕ) (a : Poll) (d : Dict ℕ Poll)
        → phase_of (lookup n (insert n (record a { status = executed }) d))
          ≡ some (executed, (a.yes_votes, a.no_votes))
    now n a d = ground (arith, lookup-insert n n (record a { status = executed }) d)

    clash :
        (v : ℕ × ℕ) (a : Poll) (u : Store)
        → lookup id u.polls ≡ some a
        → a.status ≡ passed
        → phase u id ≡ some (executed, v)
        → ⊥
    clash v a u f g e = ground arith
