-- ===== src/Gov/Examples/Scenario.antt =====
-- A poll with a deposit of 1,000, on which the accounts 2 and 3 vote with weights of 300 and 100 of
-- 1,000.
use glow_contracts.Base.{
  ℕ, ◌*◌, if◌then◌else◌, nat_beq, List, [], ◌∷◌, none, some, Option, or_default, Result, ok, err,
  Env, MessageInfo,
}
use glow_contracts.Platform.{Platform}
use glow_contracts.Platform.Testnet.{testnet}
use glow_contracts.Gov.Types.{
  Store, Poll, expired, Msg, InstantiateMsg, ExecuteMsg, Cw20HookMsg, yes, no,
}
use glow_contracts.Gov.Contract.{instantiate, execute}

-- The platform with the weights of the two accounts.
abbrev pub chain : Platform
chain = record testnet {
  voting_balance_at = λ ve account at. ok (if nat_beq account 2 then 300 else 100);
  total_voting_balance_at = λ ve at. ok 1_000;
}

abbrev pub env_at : ℕ → Env
env_at height = record {
  block = record { block_height = height; block_time = height * 6_000_000_000 };
  contract = 9;
}

abbrev pub from : ℕ → MessageInfo
from account = record { sender = account; funds = [] }

abbrev pub start : InstantiateMsg
start = record {
  quorum = 100_000_000_000_000_000;
  threshold = 500_000_000_000_000_000;
  voting_period = 100;
  timelock_period = 10;
  expiration_period = 200;
  proposal_deposit = 1_000;
  snapshot_period = 10;
}

abbrev no_config : Store
no_config = record {
  config = record {
    owner = 0;
    glow_token = 0;
    ve_token = 0;
    terraswap_factory = 0;
    quorum = 0;
    threshold = 0;
    voting_period = 0;
    timelock_period = 0;
    expiration_period = 0;
    proposal_deposit = 0;
    snapshot_period = 0;
  };
  state = record { contract_addr = 0; poll_count = 0; total_share = 0; total_deposit = 0 };
  polls = [];
  poll_indexer = [];
  poll_voters = [];
  bank = [];
}

abbrev pub store_of : Result Store → Store
store_of (ok s) = s
store_of (err e) = no_config

abbrev pub after : Result (Store × List Msg) → Store
after (ok (s, m)) = s
after (err e) = no_config

abbrev pub messages : Result (Store × List Msg) → List Msg
messages (ok (s, m)) = m
messages (err e) = []

abbrev pub genesis : Store
genesis = store_of (instantiate chain (env_at 1) (from 1) start)

abbrev pub registered : Store
registered =
    after (execute chain genesis (env_at 1) (from 1) (ExecuteMsg.register_contracts 20 21 22))

-- The token of the governance contract brings an amount of an account with a hook.
abbrev pub brings : ℕ → ℕ → Cw20HookMsg → ExecuteMsg
brings account amount hook =
    ExecuteMsg.receive (record { sender = account; amount = amount; msg = some hook })

abbrev pub proposal : Cw20HookMsg
proposal = Cw20HookMsg.create_poll (84 ∷ 69 ∷ 83 ∷ 84 ∷ []) (84 ∷ 69 ∷ 83 ∷ 84 ∷ []) none (
    some (
      record { order = 2; contract = 31; msg = 8 }
      ∷ record { order = 1; contract = 30; msg = 7 }
      ∷ []))

abbrev pub proposed : Store
proposed = after (execute chain registered (env_at 5) (from 20) (brings 4 1_000 proposal))

abbrev pub voted_yes : Store
voted_yes = after (execute chain proposed (env_at 6) (from 2) (ExecuteMsg.cast_vote 1 yes))

abbrev pub voted : Store
voted = after (execute chain voted_yes (env_at 7) (from 3) (ExecuteMsg.cast_vote 1 no))

abbrev pub ended : Store
ended = after (execute chain voted (env_at 105) (from 5) (ExecuteMsg.end_poll 1))

abbrev pub finished : Store
finished = after (execute chain ended (env_at 115) (from 5) (ExecuteMsg.execute_poll 1))

abbrev no_poll : Poll
no_poll = record {
  id = 0;
  creator = 0;
  status = expired;
  yes_votes = 0;
  no_votes = 0;
  start_time = 0;
  end_height = 0;
  title = [];
  description = [];
  link = none;
  execute_data = none;
  deposit_amount = 0;
  total_balance_at_end_poll = none;
  staked_amount = none;
}

abbrev pub poll_in : Option Poll → Poll
poll_in o = or_default no_poll o
