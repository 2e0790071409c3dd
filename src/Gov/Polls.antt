-- ===== src/Gov/Polls.antt =====
-- The polls (contracts/gov/src/contract.rs and querier.rs).
pub mod Success
pub mod Verdict
pub mod Progress
use glow_contracts.Base.{
  ℕ, ◌+◌, zero, suc, Bool, true, false, not, ◌||◌, ◌&&◌, Option, none, some, List, [], ◌∷◌, Result,
  ok, err, std, gov, GovError, panic, ◌>>=◌, ◌>>◌, fail_if, or_fail, is_some, nat_beq, nat_eq,
  pair_eq, ltb, leb, length, checked, if◌then◌else◌, Addr, MessageInfo, Env, Block,
}
use glow_contracts.Dict.{Dict, lookup, insert, remove}
use glow_contracts.Platform.{Platform}
use glow_contracts.Gov.Types.{
  Store, State, Config, Poll, PollStatus, in_progress, passed, rejected, executed, expired,
  status_beq, index_eq, VoteOption, yes, no, VoterInfo, ExecuteData, PollExecuteMsg, Msg, transfer,
  wasm_execute,
}

abbrev pub min_title_length : ℕ
min_title_length = 4

abbrev pub max_title_length : ℕ
max_title_length = 64

abbrev pub min_desc_length : ℕ
min_desc_length = 4

abbrev pub max_desc_length : ℕ
max_desc_length = 1024

abbrev pub min_link_length : ℕ
min_link_length = 12

abbrev pub max_link_length : ℕ
max_link_length = 128

unfoldable pub validate_title : List ℕ → Result (Unit {0})
validate_title title =
    if ltb (length title) min_title_length
    then err (std "Title too short")
    else if ltb max_title_length (length title)
    then err (std "Title too long")
    else ok tt

unfoldable pub validate_description : List ℕ → Result (Unit {0})
validate_description description =
    if ltb (length description) min_desc_length
    then err (std "Description too short")
    else if ltb max_desc_length (length description)
    then err (std "Description too long")
    else ok tt

unfoldable pub validate_link : Option (List ℕ) → Result (Unit {0})
validate_link none = ok tt
validate_link (some link) =
    if ltb (length link) min_link_length
    then err (std "Link too short")
    else if ltb max_link_length (length link)
    then err (std "Link too long")
    else ok tt

-- `msgs.sort()`: by the order of the messages, equal ones as they stand.
abbrev pub insert_by_order : ExecuteData → List ExecuteData → List ExecuteData
insert_by_order d [] = d ∷ []
insert_by_order d (e ∷ l) =
    let rest = insert_by_order d l in if leb d.order e.order then d ∷ e ∷ l else e ∷ rest

unfoldable pub sort : List ExecuteData → List ExecuteData
sort [] = []
sort (d ∷ l) = insert_by_order d (sort l)

-- A poll under a new status, in the polls and, under the id given, in the indexer.
unfoldable pub move_poll : Store → ℕ → ℕ → Poll → PollStatus → Store
move_poll s poll_id indexed_id a_poll status = record s {
  polls = insert poll_id (record a_poll { status = status }) s.polls;
  poll_indexer =
      insert (status, indexed_id) true (remove (a_poll.status, indexed_id) s.poll_indexer);
}

module _ (p : Platform) where
  open p use {
    add128, sub128, decimal_one, decimal_from_ratio, addr_canonicalize, addr_humanize, seconds,
    voting_balance_at, total_voting_balance_at,
  }

  abbrev pub or_zero : Result ℕ → ℕ
  or_zero (ok n) = n
  or_zero (err e) = 0

  unfoldable pub query_address_voting_balance_at_timestamp : Addr → ℕ → Addr → ℕ
  query_address_voting_balance_at_timestamp ve_addr timestamp address =
      or_zero (voting_balance_at ve_addr address timestamp)

  unfoldable pub query_total_voting_balance_at_timestamp : Addr → ℕ → ℕ
  query_total_voting_balance_at_timestamp ve_addr timestamp =
      or_zero (total_voting_balance_at ve_addr timestamp)

  unfoldable pub execute_data_of : List PollExecuteMsg → Result (List ExecuteData)
  execute_data_of [] = ok []
  execute_data_of (m ∷ ms) = do
    contract ← addr_canonicalize m.contract
    rest ← execute_data_of ms
    ok (record { order = m.order; contract = contract; msg = m.msg } ∷ rest)

  unfoldable pub all_execute_data :
      Option (List PollExecuteMsg) → Result (Option (List ExecuteData))
  unfolding execute_data_of
  all_execute_data none = ok none
  all_execute_data (some execute_msgs) = do l ← execute_data_of execute_msgs; ok (some l)

  unfoldable pub create_poll :
      Store
      → Env
      → Addr
      → ℕ
      → (title description : List ℕ) → Option (List ℕ)
      → Option (List PollExecuteMsg)
      → Result (Store × List Msg)
  unfolding validate_title validate_description validate_link all_execute_data
      query_total_voting_balance_at_timestamp
  create_poll s env proposer deposit_amount title description link execute_msgs = do
    valid_title ← validate_title title
    valid_description ← validate_description description
    valid_link ← validate_link link
    fail_if (ltb deposit_amount s.config.proposal_deposit)
        (gov (GovError.insufficient_proposal_deposit s.config.proposal_deposit))
    poll_id ← checked 64 (s.state.poll_count + 1)
    total_deposit ← add128 s.state.total_deposit deposit_amount
    execute_data ← all_execute_data execute_msgs
    ve_token ← addr_humanize s.config.ve_token
    let start_time = seconds env.block.block_time
    let staked_amount = query_total_voting_balance_at_timestamp ve_token start_time
    creator ← addr_canonicalize proposer
    end_height ← checked 64 (env.block.block_height + s.config.voting_period)
    let new_poll : Poll = record {
      id = poll_id;
      creator = creator;
      status = in_progress;
      yes_votes = 0;
      no_votes = 0;
      start_time = start_time;
      end_height = end_height;
      title = title;
      description = description;
      link = link;
      execute_data = execute_data;
      deposit_amount = deposit_amount;
      total_balance_at_end_poll = none;
      staked_amount = some staked_amount;
    }
    let state1 : State = record s.state { poll_count = poll_id; total_deposit = total_deposit }
    human ← addr_humanize creator
    ok (
      record s {
        state = state1;
        polls = insert poll_id new_poll s.polls;
        poll_indexer = insert (in_progress, poll_id) true s.poll_indexer;
      },
      [],
    )

  -- The share of the staked weight that has voted, and that weight.
  unfoldable pub quorum_of : ℕ → ℕ → Result (ℕ × ℕ)
  quorum_of tallied_weight zero = ok (0, 0)
  quorum_of tallied_weight (suc n) = do
    quorum ← decimal_from_ratio tallied_weight (suc n)
    ok (quorum, suc n)

  -- The status of a poll that has reached the quorum.
  unfoldable pub status_by_threshold : Config → ℕ → ℕ → Result PollStatus
  status_by_threshold config yes_weight tallied_weight = do
    ratio ← decimal_from_ratio yes_weight tallied_weight
    ok (if ltb config.threshold ratio then passed else rejected)

  unfoldable pub refund : Config → Poll → Result (List Msg)
  refund config a_poll = if nat_beq a_poll.deposit_amount 0 then ok [] else do
    glow_token ← addr_humanize config.glow_token
    creator ← addr_humanize a_poll.creator
    ok (transfer glow_token creator a_poll.deposit_amount ∷ [])

  -- The status that a poll ends with, and the refund of its deposit.
  unfoldable pub outcome : Config → Poll → ℕ → ℕ → Result (PollStatus × List Msg)
  unfolding status_by_threshold refund
  outcome config a_poll tallied_weight quorum =
      if nat_beq tallied_weight 0 || ltb quorum config.quorum then ok (rejected, []) else do
        status ← status_by_threshold config a_poll.yes_votes tallied_weight
        messages ← refund config a_poll
        ok (status, messages)

  unfoldable pub end_poll : Store → Env → ℕ → Result (Store × List Msg)
  unfolding quorum_of outcome move_poll
  end_poll s env poll_id = do
    a_poll ← or_fail (lookup poll_id s.polls) (std "poll not found")
    fail_if (not (status_beq a_poll.status in_progress)) (gov GovError.poll_not_in_progress)
    fail_if (ltb env.block.block_height a_poll.end_height) (gov GovError.poll_voting_period)
    tallied_weight ← checked 128 (a_poll.yes_votes + a_poll.no_votes)
    staked_amount ← or_fail a_poll.staked_amount panic
    (quorum, staked_weight) ← quorum_of tallied_weight staked_amount
    (poll_status, messages) ← outcome s.config a_poll tallied_weight quorum
    total_deposit ← sub128 s.state.total_deposit a_poll.deposit_amount
    let state1 : State = record s.state { total_deposit = total_deposit }
    let ended : Poll = record a_poll { total_balance_at_end_poll = some staked_weight }
    ok (move_poll (record s { state = state1 }) poll_id a_poll.id ended poll_status, messages)

  unfoldable pub execute_messages : List ExecuteData → Result (List Msg)
  execute_messages [] = ok []
  execute_messages (d ∷ l) = do
    contract ← addr_humanize d.contract
    rest ← execute_messages l
    ok (wasm_execute contract d.msg ∷ rest)

  unfoldable pub execute_poll : Store → Env → ℕ → Result (Store × List Msg)
  unfolding move_poll sort execute_messages
  execute_poll s env poll_id = do
    a_poll ← or_fail (lookup poll_id s.polls) (std "poll not found")
    fail_if (not (status_beq a_poll.status passed)) (gov GovError.poll_not_passed)
    release ← checked 64 (a_poll.end_height + s.config.timelock_period)
    fail_if (ltb env.block.block_height release) (gov GovError.timelock_not_expired)
    all_msgs ← or_fail a_poll.execute_data (gov GovError.no_execute_data)
    messages ← execute_messages (sort all_msgs)
    ok (move_poll s poll_id poll_id a_poll executed, messages)

  unfoldable pub expire_poll : Store → Env → ℕ → Result (Store × List Msg)
  unfolding move_poll
  expire_poll s env poll_id = do
    a_poll ← or_fail (lookup poll_id s.polls) (std "poll not found")
    fail_if (not (status_beq a_poll.status passed)) (gov GovError.poll_not_passed)
    all_msgs ← or_fail a_poll.execute_data (gov GovError.no_execute_data)
    expiry ← checked 64 (a_poll.end_height + s.config.expiration_period)
    fail_if (ltb env.block.block_height expiry) (gov GovError.poll_not_expired)
    ok (move_poll s poll_id poll_id a_poll expired, [])

  -- The poll with the weight added to the votes for its option.
  unfoldable pub add_vote : Poll → VoteOption → ℕ → Result Poll
  add_vote a_poll yes amount = do
    votes ← add128 a_poll.yes_votes amount
    ok (record a_poll { yes_votes = votes })
  add_vote a_poll no amount = do
    votes ← add128 a_poll.no_votes amount
    ok (record a_poll { no_votes = votes })

  unfoldable pub cast_vote : Store → Env → MessageInfo → ℕ → VoteOption → Result (Store × List Msg)
  unfolding query_address_voting_balance_at_timestamp add_vote
  cast_vote s env info poll_id vote = do
    voter ← addr_canonicalize info.sender
    fail_if (nat_beq poll_id 0 || ltb s.state.poll_count poll_id) (gov GovError.poll_not_found)
    a_poll ← or_fail (lookup poll_id s.polls) (std "poll not found")
    fail_if
        (not (status_beq a_poll.status in_progress) || ltb a_poll.end_height env.block.block_height)
        (gov GovError.poll_not_in_progress)
    fail_if (is_some (lookup (poll_id, voter) s.poll_voters)) (gov GovError.already_voted)
    ve_token ← addr_humanize s.config.ve_token
    let amount = query_address_voting_balance_at_timestamp ve_token a_poll.start_time info.sender
    poll1 ← add_vote a_poll vote amount
    let vote_info : VoterInfo = record { vote = vote; balance = amount }
    ok (
      record s {
        poll_voters = insert (poll_id, voter) vote_info s.poll_voters;
        polls = insert poll_id poll1 s.polls;
      },
      [],
    )
