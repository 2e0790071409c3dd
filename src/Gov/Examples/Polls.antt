-- ===== src/Gov/Examples/Polls.antt =====
-- The theorems on polls, at the life of one poll.
use glow_contracts.Base.{
  ℕ, ◌≡◌, ◌+◌, ◌≤◌, inr, arith, refl, ok, err, Error, some, List, [], ◌∷◌, nat_eq, sym, ap,
  or_default, ◌∙◌, ◌⊎◌,
}
use glow_contracts.Dict.{lookup}
use glow_contracts.Gov.Types.{
  Store, Poll, Msg, in_progress, ExecuteMsg, yes, no, transfer, wasm_execute,
}
use glow_contracts.Gov.Contract.{instantiate, execute, receive_cw20, register_contracts}
use glow_contracts.Gov.Polls.{create_poll, cast_vote, end_poll, execute_poll}
use glow_contracts.Gov.Polls.Verdict.{IsVerdict, end_poll-IsVerdict}
use glow_contracts.Gov.Books.{IsConsistent}
use glow_contracts.Gov.Runs.{Reach, here, next, calls}
use glow_contracts.Gov.Runs.Books.{run-IsConsistent, instantiate-IsConsistent}
use glow_contracts.Gov.Runs.Lifecycle.{Lives, phase, Reach-Lives}
use glow_contracts.Gov.Runs.Once.{cast_vote-once, execute_poll-once}
use glow_contracts.Gov.Runs.Endings.{run-end_poll}
use glow_contracts.Gov.Examples.Scenario.{
  chain, env_at, from, start, genesis, registered, proposed, voted_yes, voted, ended, finished,
  proposal, brings, poll_in,
}

genesis_run : instantiate chain (env_at 1) (from 1) start ≡ ok genesis
unfolding instantiate execute register_contracts receive_cw20 create_poll cast_vote end_poll
    execute_poll
genesis_run = refl

registered_run :
    execute chain genesis (env_at 1) (from 1) (ExecuteMsg.register_contracts 20 21 22)
    ≡ ok (registered, [])
unfolding instantiate execute register_contracts receive_cw20 create_poll cast_vote end_poll
    execute_poll
registered_run = refl

proposed_run :
    execute chain registered (env_at 5) (from 20) (brings 4 1_000 proposal) ≡ ok (proposed, [])
unfolding instantiate execute register_contracts receive_cw20 create_poll cast_vote end_poll
    execute_poll
proposed_run = refl

voted_yes_run : cast_vote chain proposed (env_at 6) (from 2) 1 yes ≡ ok (voted_yes, [])
unfolding instantiate execute register_contracts receive_cw20 create_poll cast_vote end_poll
    execute_poll
voted_yes_run = refl

voted_run : cast_vote chain voted_yes (env_at 7) (from 3) 1 no ≡ ok (voted, [])
unfolding instantiate execute register_contracts receive_cw20 create_poll cast_vote end_poll
    execute_poll
voted_run = refl

ended_run : end_poll chain voted (env_at 105) 1 ≡ ok (ended, transfer 20 4 1_000 ∷ [])
unfolding instantiate execute register_contracts receive_cw20 create_poll cast_vote end_poll
    execute_poll
ended_run = refl

finished_run :
    execute_poll chain ended (env_at 115) 1
    ≡ ok (finished, wasm_execute 30 7 ∷ wasm_execute 31 8 ∷ [])
unfolding instantiate execute register_contracts receive_cw20 create_poll cast_vote end_poll
    execute_poll
finished_run = refl

proposed_life : Reach genesis proposed
proposed_life =
    next
      (next here (
        calls chain genesis registered (env_at 1) (from 1) (ExecuteMsg.register_contracts 20 21 22)
          [] registered_run))
      (calls chain registered proposed (env_at 5) (from 20) (brings 4 1_000 proposal) []
        proposed_run)

voted_life : Reach voted_yes voted
unfolding execute
voted_life =
    next here
      (calls chain voted_yes voted (env_at 7) (from 3) (ExecuteMsg.cast_vote 1 no) [] voted_run)

finished_life : Reach voted_yes finished
unfolding execute
finished_life =
    next
      (next voted_life
        (calls chain voted ended (env_at 105) (from 5) (ExecuteMsg.end_poll 1) _ ended_run))
      (calls chain ended finished (env_at 115) (from 5) (ExecuteMsg.execute_poll 1) _ finished_run)

whole_life : Reach genesis voted
unfolding execute
whole_life =
    next
      (next proposed_life (
        calls chain proposed voted_yes (env_at 6) (from 2) (ExecuteMsg.cast_vote 1 yes) []
          voted_yes_run))
      (calls chain voted_yes voted (env_at 7) (from 3) (ExecuteMsg.cast_vote 1 no) [] voted_run)

run-IsConsistent_example : IsConsistent voted
run-IsConsistent_example =
    run-IsConsistent chain (env_at 1) (from 1) start genesis voted genesis_run whole_life

genesis-IsConsistent : IsConsistent genesis
genesis-IsConsistent = instantiate-IsConsistent chain (env_at 1) (from 1) start genesis genesis_run

proposed-IsConsistent : IsConsistent proposed
proposed-IsConsistent =
    run-IsConsistent chain (env_at 1) (from 1) start genesis proposed genesis_run proposed_life

voted-IsConsistent : IsConsistent voted
voted-IsConsistent =
    run-IsConsistent chain (env_at 1) (from 1) start genesis voted genesis_run whole_life

ended_life : Reach genesis ended
unfolding execute
ended_life =
    next whole_life
      (calls chain voted ended (env_at 105) (from 5) (ExecuteMsg.end_poll 1) _ ended_run)

ended-IsConsistent : IsConsistent ended
ended-IsConsistent =
    run-IsConsistent chain (env_at 1) (from 1) start genesis ended genesis_run ended_life

Reach-Lives_example : Lives (phase genesis 1) (phase ended 1)
Reach-Lives_example = Reach-Lives genesis ended 1 ended_life genesis-IsConsistent

cast_vote-once_example : (e : Error) × (cast_vote chain finished (env_at 120) (from 2) 1 no ≡ err e)
cast_vote-once_example =
    cast_vote-once chain proposed voted_yes finished (env_at 6) (env_at 120) (from 2) 1 yes no []
      proposed-IsConsistent voted_yes_run finished_life

execute_poll-once_example : (e : Error) × (execute_poll chain finished (env_at 130) 1 ≡ err e)
execute_poll-once_example =
    execute_poll-once chain chain ended finished finished (env_at 115) (env_at 130) 1 _
      ended-IsConsistent finished_run here

abbrev the_poll : Poll
the_poll = poll_in (lookup 1 voted.polls)

found : lookup 1 voted.polls ≡ some the_poll
unfolding instantiate execute register_contracts receive_cw20 create_poll cast_vote
found = refl

staked : the_poll.staked_amount ≡ some 1_000
unfolding instantiate execute register_contracts receive_cw20 create_poll cast_vote
staked = refl

live : the_poll.status ≡ in_progress
unfolding instantiate execute register_contracts receive_cw20 create_poll cast_vote
live = refl

over : the_poll.end_height ≤ 105
unfolding instantiate execute register_contracts receive_cw20 create_poll cast_vote
over = omega arith

counted : the_poll.yes_votes + the_poll.no_votes ≡ 400
unfolding instantiate execute register_contracts receive_cw20 create_poll cast_vote
counted = refl

token_known : chain.addr_humanize voted.config.glow_token ≡ ok 20
unfolding instantiate execute register_contracts receive_cw20 create_poll cast_vote
token_known = refl

creator_known : chain.addr_humanize the_poll.creator ≡ ok 4
unfolding instantiate execute register_contracts receive_cw20 create_poll cast_vote
creator_known = refl

weight_covers :
    (w : ℕ)
    → the_poll.staked_amount ≡ some w
    → (w ≡ 0) ⊎ (the_poll.yes_votes + the_poll.no_votes ≤ w)
weight_covers w e =
    let same : w ≡ 1_000 = ap (λ o. or_default 0 o) (sym e ∙ staked) in
    inr (omega (arith, counted, same))

run-end_poll_example : (r : Store × List Msg) × (end_poll chain voted (env_at 105) 1 ≡ ok r)
run-end_poll_example =
    run-end_poll chain (env_at 1) (env_at 105) (from 1) start genesis voted 1 the_poll 20 4
      genesis_run whole_life found live over (omega (arith, counted)) weight_covers token_known
      creator_known

end_poll-IsVerdict_example :
    (q' : Poll) × ((lookup 1 ended.polls ≡ some q')
      × IsVerdict chain voted.config the_poll 1_000 q'.status (transfer 20 4 1_000 ∷ []))
end_poll-IsVerdict_example =
    end_poll-IsVerdict chain voted ended (env_at 105) 1 _ the_poll 1_000 found staked ended_run
