-- ===== src/Gov/Runs/Books.antt =====
-- The records stay consistent through every run.
use glow_contracts.Base.{◌≡◌, refl, sym, subst, ok, List, with_ok, Env, MessageInfo, ok-injective}
use glow_contracts.Platform.{Platform}
use glow_contracts.Gov.Types.{Store, ExecuteMsg, InstantiateMsg, Msg}
use glow_contracts.Gov.Contract.{instantiate, execute, validate_quorum, validate_threshold}
use glow_contracts.Gov.Contract.Cases.{execute-cases}
use glow_contracts.Gov.Books.{IsConsistent}
use glow_contracts.Gov.Books.Calls.{
  create_poll-IsConsistent, end_poll-IsConsistent, execute_poll-IsConsistent,
  expire_poll-IsConsistent, cast_vote-IsConsistent,
}
use glow_contracts.Gov.Books.Stakes.{
  stake_voting_tokens-IsConsistent, withdraw_voting_tokens-IsConsistent,
}
use glow_contracts.Gov.Runs.{calls, Reach, here, next}

config-IsConsistent :
    (s s' : Store) → IsConsistent s → s' ≡ record s { config = s'.config } → IsConsistent s'
config-IsConsistent s s' h e = subst IsConsistent (sym e) (record {
  shares = h.shares;
  deposits = h.deposits;
  ids = h.ids;
  tallies = h.tallies;
  indexed = h.indexed;
  unlocked = h.unlocked;
})

-- Every call that succeeds leaves consistent records consistent.
pub execute-IsConsistent :
    (p : Platform) (s s' : Store) (env : Env) (msgs : List Msg) (info : MessageInfo)
    (msg : ExecuteMsg)
    → IsConsistent s
    → execute p s env info msg ≡ ok (s', msgs)
    → IsConsistent s'
execute-IsConsistent p s s' env msgs info msg h =
    execute-cases p s s' env msgs (IsConsistent s')
      (record {
        configures = config-IsConsistent s s' h;
        creates = create_poll-IsConsistent p s s' env msgs h;
        stakes = stake_voting_tokens-IsConsistent p s s' msgs h;
        withdraws = withdraw_voting_tokens-IsConsistent p s s' msgs h;
        votes = cast_vote-IsConsistent p s s' env msgs h;
        ends = end_poll-IsConsistent p s s' env msgs h;
        executes = execute_poll-IsConsistent p s s' env msgs h;
        expires = expire_poll-IsConsistent p s s' env msgs h;
      })
      info msg

-- A contract that has just been instantiated has consistent records.
pub instantiate-IsConsistent :
    (p : Platform) (env : Env) (info : MessageInfo) (msg : InstantiateMsg) (s : Store)
    → instantiate p env info msg ≡ ok s
    → IsConsistent s
unfolding instantiate
instantiate-IsConsistent p env info msg s run =
    with_ok (validate_quorum p msg.quorum) _ run λ v1 e1 r1.
      with_ok (validate_threshold p msg.threshold) _ r1 λ v2 e2 r2.
        with_ok (p.addr_canonicalize info.sender) _ r2 λ owner e3 r3.
          with_ok (p.addr_canonicalize env.contract) _ r3 λ contract e4 r4.
            subst IsConsistent (ok-injective r4) (record {
              shares = refl;
              deposits = refl;
              ids = λ id q e. cc;
              tallies = λ o id. refl;
              indexed = λ st id. refl;
              unlocked = λ a m e. cc;
            })

-- Consistent records stay consistent through every sequence of calls.
pub Reach-IsConsistent : (s t : Store) → Reach s t → IsConsistent s → IsConsistent t
Reach-IsConsistent s t here h = h
Reach-IsConsistent s t (next r (calls p u v env info msg msgs run)) h =
    execute-IsConsistent p u v env msgs info msg (Reach-IsConsistent s u r h) run

-- From the instantiation of the governance contract on, after any sequence of calls that succeed,
-- the stakers' shares add up to the total, the deposits of the polls in progress to the total
-- deposit and the recorded votes on each poll to its votes, polls stand under ids from one to the
-- count, the indexer has each poll under its status and no other, and no balance is locked.
pub run-IsConsistent :
    (p : Platform) (env : Env) (info : MessageInfo) (msg : InstantiateMsg) (s t : Store)
    → instantiate p env info msg ≡ ok s
    → Reach s t
    → IsConsistent t
run-IsConsistent p env info msg s t run r =
    Reach-IsConsistent s t r (instantiate-IsConsistent p env info msg s run)
