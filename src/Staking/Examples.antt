-- ===== src/Staking/Examples.antt =====
-- The theorems on the staking contract, at a bond, a withdrawal and a change of the schedules.
use glow_contracts.Base.{
  ℕ, ◌+◌, ◌*◌, ◌≤◌, ◌≡◌, refl, ok, err, some, List, [], ◌∷◌, Result, Env, MessageInfo, nat_eq,
  arith,
}
use glow_contracts.Platform.Testnet.{testnet}
use glow_contracts.Staking.Types.{
  Store, Config, State, Schedule, InstantiateMsg, ExecuteMsg, Cw20HookMsg, Msg, transfer,
}
use glow_contracts.Staking.Rewards.{distributed_amount, compute_reward, compute_staker_reward}
use glow_contracts.Staking.Schedules.{valid_schedules, assert_new_schedules}
use glow_contracts.Staking.Schedules.Kept.{count, assert_new_schedules-count}
use glow_contracts.Staking.Contract.{instantiate, execute, bond, withdraw, receive_cw20}
use glow_contracts.Staking.Solvency.{IsSolvent, pending}
use glow_contracts.Staking.Runs.{Reach, here, next, run-IsSolvent, run-paid}

abbrev env_at : ℕ → Env
env_at time = record {
  block = record { block_height = time; block_time = time * 1_000_000_000 };
  contract = 9;
}

abbrev from : ℕ → MessageInfo
from account = record { sender = account; funds = [] }

abbrev slots : List Schedule
slots = (100, (200, 1_000_000)) ∷ (200, (300, 1_000)) ∷ []

abbrev first : InstantiateMsg
first = record { owner = 1; glow_token = 20; staking_token = 21; distribution_schedule = slots }

abbrev config : Config
config = record { owner = 1; glow_token = 20; staking_token = 21; distribution_schedule = slots }

abbrev genesis : Store
genesis = record {
  config = config;
  state = record { last_distributed = 100; total_bond_amount = 0; global_reward_index = 0 };
  stakers = [];
}

abbrev after : Result (Store × List Msg) → Store
after (ok (s, m)) = s
after (err e) = genesis

abbrev bonds_100 : ExecuteMsg
bonds_100 = ExecuteMsg.receive (record { sender = 2; amount = 100; msg = some Cw20HookMsg.bond })

abbrev bonded : Store
bonded = after (execute testnet genesis (env_at 110) (from 21) bonds_100)

abbrev withdrawn : Store
withdrawn = after (execute testnet bonded (env_at 160) (from 2) ExecuteMsg.withdraw)

genesis_run : instantiate testnet (env_at 100) first ≡ ok genesis
unfolding instantiate valid_schedules
genesis_run = refl

life : Reach testnet genesis (0 + 0 + 500_000) (0 + 0 + 500_000) (0 + 1 + 1) withdrawn
unfolding execute receive_cw20 bond withdraw compute_reward compute_staker_reward distributed_amount
life =
    next withdrawn (env_at 160) (from 2) ExecuteMsg.withdraw (transfer 20 2 500_000 ∷ []) 500_000
      (next bonded (env_at 110) (from 21) bonds_100 [] 0 here refl refl) refl refl

run-IsSolvent_example : IsSolvent testnet 500_000 500_000 2 withdrawn
run-IsSolvent_example =
    run-IsSolvent testnet (env_at 100) first genesis withdrawn 500_000 500_000 2 genesis_run life

run-paid_example : 500_000 + pending withdrawn.stakers ≤ 500_000 + 2
run-paid_example =
    run-paid testnet (env_at 100) first genesis withdrawn 500_000 500_000 2 genesis_run life

abbrev new_slots : List Schedule
new_slots = (100, (200, 1_000_000)) ∷ (250, (400, 5_000)) ∷ []

abbrev later : State
later = record { last_distributed = 160; total_bond_amount = 100; global_reward_index = 0 }

accepted : assert_new_schedules config later new_slots ≡ ok tt
unfolding assert_new_schedules
accepted = refl

assert_new_schedules-count_example :
    count (100, (200, 1_000_000)) new_slots ≡ count (100, (200, 1_000_000)) slots
assert_new_schedules-count_example =
    assert_new_schedules-count config later new_slots accepted (100, (200, 1_000_000)) (omega arith)
