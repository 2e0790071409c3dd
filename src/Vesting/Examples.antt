-- ===== src/Vesting/Examples.antt =====
-- The theorem on vesting, for an account with 1000 tokens that claims twice.
use glow_contracts.Base.{
  ℕ, ◌*◌, ◌≤◌, ◌≡◌, refl, ok, err, List, [], ◌∷◌, Result, Env, MessageInfo, arith,
}
use glow_contracts.Platform.Testnet.{testnet}
use glow_contracts.Vesting.{Store, VestingAccount, InstantiateMsg, ExecuteMsg, Msg, transfer}
use glow_contracts.Vesting.Contract.{instantiate, execute}
use glow_contracts.Vesting.Runs.{Reach, here, next, paid-registered}

abbrev env_at : ℕ → Env
env_at time = record {
  block = record { block_height = time; block_time = time * 1_000_000_000 };
  contract = 9;
}

abbrev from : ℕ → MessageInfo
from account = record { sender = account; funds = [] }

abbrev first : InstantiateMsg
first = record { owner = 1; glow_token = 20; genesis_time = 100 }

abbrev genesis : Store
genesis = record {
  config = record { owner = 1; glow_token = 20; genesis_time = 100 };
  vesting_infos = [];
}

abbrev after : Result (Store × List Msg) → Store
after (ok (s, m)) = s
after (err e) = genesis

-- Two schedules that start at 100 and 150.
abbrev accounts : List VestingAccount
accounts = record { address = 2; schedules = (100, (200, 700)) ∷ (150, (160, 300)) ∷ [] } ∷ []

abbrev registered : Store
registered =
    after
      (execute testnet genesis (env_at 90) (from 1) (ExecuteMsg.register_vesting_accounts accounts))

abbrev half : Store
half = after (execute testnet registered (env_at 150) (from 2) ExecuteMsg.claim)

abbrev whole : Store
whole = after (execute testnet half (env_at 250) (from 2) ExecuteMsg.claim)

genesis_run : instantiate testnet first ≡ ok genesis
unfolding instantiate
genesis_run = refl

registered_run :
    execute testnet genesis (env_at 90) (from 1) (ExecuteMsg.register_vesting_accounts accounts)
    ≡ ok (registered, [])
unfolding execute
registered_run = refl

half_run :
    execute testnet registered (env_at 150) (from 2) ExecuteMsg.claim
    ≡ ok (half, transfer 20 2 350 ∷ [])
unfolding execute
half_run = refl

whole_run :
    execute testnet half (env_at 250) (from 2) ExecuteMsg.claim ≡ ok (whole, transfer 20 2 650 ∷ [])
unfolding execute
whole_run = refl

life : Reach testnet genesis 250 1000 1000 whole
life =
    next whole (env_at 250) (from 2) ExecuteMsg.claim _
      (next half (env_at 150) (from 2) ExecuteMsg.claim _
        (next registered (env_at 90) (from 1) (ExecuteMsg.register_vesting_accounts accounts) []
          here (omega arith) registered_run)
        (omega arith) half_run)
      (omega arith) whole_run

paid-registered_example : 1000 ≤ 1000
paid-registered_example = paid-registered testnet first genesis whole 250 1000 1000 genesis_run life
