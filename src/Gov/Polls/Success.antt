-- ===== src/Gov/Polls/Success.antt =====
-- What the calls on polls have done when they succeed.
use glow_contracts.Base.{
  ℕ, ◌+◌, ◌≤◌, ◌≡◌, ◌∙◌, refl, sym, ap, ok, some, none, Option, List, arith, with_ok, with_test,
  or_fail-eq-ok, checked-eq-ok, ltb, nat_beq, ◌||◌, ltb_false→le, std, gov, GovError, panic, nat_eq,
  pair_eq, not, or_fail, Result, checked, is_some, Addr, Env, MessageInfo, true, false,
}
use glow_contracts.Dict.{lookup, insert}
use glow_contracts.Platform.{Platform}
use glow_contracts.Gov.Types.{
  Store, Poll, PollStatus, in_progress, passed, executed, expired, status_beq, VoteOption,
  PollExecuteMsg, ExecuteData, Msg, index_eq,
}
use glow_contracts.Gov.Polls.{
  create_poll, end_poll, execute_poll, expire_poll, cast_vote, add_vote, move_poll, validate_title,
  validate_description, validate_link, all_execute_data, quorum_of, outcome, sort, execute_messages,
  query_address_voting_balance_at_timestamp,
}

-- The state and the messages of a result.
pub result_parts :
    {s s' : Store} {m m' : List Msg}
    → ◌≡◌ {A = Result (Store × List Msg)} (ok (s, m)) (ok (s', m'))
    → (s' ≡ s) × (m' ≡ m)
result_parts h = ground arith

pub status_of_test : (a b : PollStatus) → not (status_beq a b) ≡ false → a ≡ b
status_of_test a b h = ground arith

module _ (p : Platform) (s s' : Store) (env : Env) (msgs : List Msg) where
  pub record Created (proposer : Addr) (amount : ℕ) : Type 0 where
    pub poll : Poll
    pub total : ℕ
    pub next_id : poll.id ≡ s.state.poll_count + 1
    pub live : poll.status ≡ in_progress
    pub no_yes : poll.yes_votes ≡ 0
    pub no_no : poll.no_votes ≡ 0
    pub deposit : poll.deposit_amount ≡ amount
    pub weighed : (w : ℕ) × (poll.staked_amount ≡ some w)
    pub total_lem : total ≡ s.state.total_deposit + amount
    pub after : s' ≡ record s {
      state = record s.state { poll_count = poll.id; total_deposit = total };
      polls = insert poll.id poll s.polls;
      poll_indexer = insert (in_progress, poll.id) true s.poll_indexer;
    }

  pub create_poll-Created :
      (proposer : Addr) (amount : ℕ) (title description : List ℕ) (link : Option (List ℕ))
      (execute_msgs : Option (List PollExecuteMsg))
      → create_poll p s env proposer amount title description link execute_msgs ≡ ok (s', msgs)
      → Created proposer amount
  unfolding create_poll
  create_poll-Created proposer amount title description link execute_msgs run =
      with_ok (validate_title title) _ run λ v1 e1 r1.
        with_ok (validate_description description) _ r1 λ v2 e2 r2.
          with_ok (validate_link link) _ r2 λ v3 e3 r3.
            with_test (ltb amount s.config.proposal_deposit) _ _ r3 λ f4 r4.
              with_ok (checked 64 (s.state.poll_count + 1)) _ r4 λ id e5 r5.
                with_ok (p.add128 s.state.total_deposit amount) _ r5 λ total e6 r6.
                  with_ok (all_execute_data p execute_msgs) _ r6 λ data_ e7 r7.
                    with_ok (p.addr_humanize s.config.ve_token) _ r7 λ ve e8 r8.
                      with_ok (p.addr_canonicalize proposer) _ r8 λ creator e9 r9.
                        with_ok (checked 64 (env.block.block_height + s.config.voting_period)) _ r9
                          λ end e10 r10. with_ok (p.addr_humanize creator) _ r10 λ human e11 r11.
                            record {
                              poll = _;
                              total = total;
                              next_id = checked-eq-ok 64 _ e5;
                              live = refl;
                              no_yes = refl;
                              no_no = refl;
                              deposit = refl;
                              weighed = (_, refl);
                              total_lem = p.add128_lem s.state.total_deposit amount total e6;
                              after = (result_parts r11).0;
                            }

  pub record Ended (id : ℕ) : Type 0 where
    pub poll : Poll
    pub found : lookup id s.polls ≡ some poll
    pub live : poll.status ≡ in_progress
    pub over : poll.end_height ≤ env.block.block_height
    pub staked : ℕ
    pub staked_lem : poll.staked_amount ≡ some staked
    pub quorum : ℕ
    pub staked_weight : ℕ
    pub quorum_lem :
        quorum_of p (poll.yes_votes + poll.no_votes) staked ≡ ok (quorum, staked_weight)
    pub status : PollStatus
    pub outcome_lem :
        outcome p s.config poll (poll.yes_votes + poll.no_votes) quorum ≡ ok (status, msgs)
    pub total : ℕ
    pub total_lem : total + poll.deposit_amount ≡ s.state.total_deposit
    pub after :
        s'
        ≡ move_poll
            (record s { state = record s.state { total_deposit = total } })
            id
            poll.id
            (record poll { total_balance_at_end_poll = some staked_weight })
            status

  pub end_poll-Ended : (id : ℕ) → end_poll p s env id ≡ ok (s', msgs) → Ended id
  unfolding end_poll
  end_poll-Ended id run =
      with_ok (or_fail (lookup id s.polls) (std "poll not found")) _ run λ q e1 r1.
        with_test (not (status_beq q.status in_progress)) _ _ r1 λ live r2.
          with_test (ltb env.block.block_height q.end_height) _ _ r2 λ over r3.
            with_ok (checked 128 (q.yes_votes + q.no_votes)) _ r3 λ weight e4 r4.
              with_ok (or_fail q.staked_amount panic) _ r4 λ staked e5 r5.
                with_ok (quorum_of p weight staked) _ r5 λ quorum e6 r6.
                  with_ok (outcome p s.config q weight quorum.0) _ r6 λ result e7 r7.
                    with_ok (p.sub128 s.state.total_deposit q.deposit_amount) _ r7 λ total e8 r8.
                      record {
                        poll = q;
                        found = or_fail-eq-ok (lookup id s.polls) _ e1;
                        live = status_of_test q.status in_progress live;
                        over = ltb_false→le env.block.block_height q.end_height over;
                        staked = staked;
                        staked_lem = or_fail-eq-ok q.staked_amount _ e5;
                        quorum = quorum.0;
                        staked_weight = quorum.1;
                        quorum_lem = rw (checked-eq-ok 128 _ e4) at e6;
                        status = result.0;
                        outcome_lem =
                            (rw (checked-eq-ok 128 _ e4) at e7)
                            ∙ ap (λ m. ok (result.0, m)) (sym (result_parts r8).1);
                        total = total;
                        total_lem = p.sub128_lem s.state.total_deposit q.deposit_amount total e8;
                        after = (result_parts r8).0;
                      }

  pub record Executed (id : ℕ) : Type 0 where
    pub poll : Poll
    pub found : lookup id s.polls ≡ some poll
    pub done : poll.status ≡ passed
    pub due : poll.end_height + s.config.timelock_period ≤ env.block.block_height
    pub data_list : List ExecuteData
    pub data_list_lem : poll.execute_data ≡ some data_list
    pub messages_lem : execute_messages p (sort data_list) ≡ ok msgs
    pub after : s' ≡ move_poll s id id poll executed

  pub execute_poll-Executed : (id : ℕ) → execute_poll p s env id ≡ ok (s', msgs) → Executed id
  unfolding execute_poll
  execute_poll-Executed id run =
      with_ok (or_fail (lookup id s.polls) (std "poll not found")) _ run λ q e1 r1.
        with_test (not (status_beq q.status passed)) _ _ r1 λ done r2.
          with_ok (checked 64 (q.end_height + s.config.timelock_period)) _ r2 λ release e3 r3.
            with_test (ltb env.block.block_height release) _ _ r3 λ due r4.
              with_ok (or_fail q.execute_data (gov GovError.no_execute_data)) _ r4 λ l e5 r5.
                with_ok (execute_messages p (sort l)) _ r5 λ messages e6 r6. record {
                  poll = q;
                  found = or_fail-eq-ok (lookup id s.polls) _ e1;
                  done = status_of_test q.status passed done;
                  due = omega (
                    arith,
                    checked-eq-ok 64 _ e3,
                    ltb_false→le env.block.block_height release due,
                  );
                  data_list = l;
                  data_list_lem = or_fail-eq-ok q.execute_data _ e5;
                  messages_lem = e6 ∙ ap ok (sym (result_parts r6).1);
                  after = (result_parts r6).0;
                }

  pub record Expired (id : ℕ) : Type 0 where
    pub poll : Poll
    pub found : lookup id s.polls ≡ some poll
    pub done : poll.status ≡ passed
    pub due : poll.end_height + s.config.expiration_period ≤ env.block.block_height
    pub after : s' ≡ move_poll s id id poll expired

  pub expire_poll-Expired : (id : ℕ) → expire_poll p s env id ≡ ok (s', msgs) → Expired id
  unfolding expire_poll
  expire_poll-Expired id run =
      with_ok (or_fail (lookup id s.polls) (std "poll not found")) _ run λ q e1 r1.
        with_test (not (status_beq q.status passed)) _ _ r1 λ done r2.
          with_ok (or_fail q.execute_data (gov GovError.no_execute_data)) _ r2 λ l e3 r3.
            with_ok (checked 64 (q.end_height + s.config.expiration_period)) _ r3 λ expiry e4 r4.
              with_test (ltb env.block.block_height expiry) _ _ r4 λ due r5. record {
                poll = q;
                found = or_fail-eq-ok (lookup id s.polls) _ e1;
                done = status_of_test q.status passed done;
                due =
                    omega (
                      arith,
                      checked-eq-ok 64 _ e4,
                      ltb_false→le env.block.block_height expiry due,
                    );
                after = (result_parts r5).0;
              }

  pub record Voted (info : MessageInfo) (id : ℕ) (vote : VoteOption) : Type 0 where
    pub voter : Addr
    pub voter_lem : p.addr_canonicalize info.sender ≡ ok voter
    pub poll : Poll
    pub poll' : Poll
    pub found : lookup id s.polls ≡ some poll
    pub live : poll.status ≡ in_progress
    pub open_until : env.block.block_height ≤ poll.end_height
    pub free : lookup (id, voter) s.poll_voters ≡ none
    pub amount : ℕ
    pub vote_lem : add_vote p poll vote amount ≡ ok poll'
    pub after : s' ≡ record s {
      poll_voters = insert (id, voter) (record { vote = vote; balance = amount }) s.poll_voters;
      polls = insert id poll' s.polls;
    }

  pub cast_vote-Voted :
      (info : MessageInfo) (id : ℕ) (vote : VoteOption)
      → cast_vote p s env info id vote ≡ ok (s', msgs)
      → Voted info id vote
  unfolding cast_vote
  cast_vote-Voted info id vote run = with_ok (p.addr_canonicalize info.sender) _ run λ voter e1 r1.
      with_test (nat_beq id 0 || ltb s.state.poll_count id) _ _ r1 λ known r2.
        with_ok (or_fail (lookup id s.polls) (std "poll not found")) _ r2 λ q e3 r3.
          with_test
            (not (status_beq q.status in_progress) || ltb q.end_height env.block.block_height) _ _
            r3
            λ live r4. with_test (is_some (lookup (id, voter) s.poll_voters)) _ _ r4 λ free r5.
              with_ok (p.addr_humanize s.config.ve_token) _ r5 λ ve e6 r6.
                with_ok
                  (add_vote p q vote
                    (query_address_voting_balance_at_timestamp p ve q.start_time info.sender))
                  _ r6
                  λ q' e7 r7. record {
                    voter = voter;
                    voter_lem = e1;
                    poll = q;
                    poll' = q';
                    found = or_fail-eq-ok (lookup id s.polls) _ e3;
                    live = ground (arith, status_of_test q.status in_progress);
                    open_until = ground arith;
                    free = ground arith;
                    amount = _;
                    vote_lem = e7;
                    after = (result_parts r7).0;
                  }
