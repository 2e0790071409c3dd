-- ===== src/Airdrop/Examples.antt =====
-- The theorems on the airdrop, at a stage with a claim of 50 tokens.
use glow_contracts.Base.{
  ℕ, ◌*◌, ◌≡◌, ◌++◌, take, refl, ok, err, Error, List, [], ◌∷◌, Result, Env, MessageInfo, nat_eq,
  arith,
}
use glow_contracts.Platform.{Platform}
use glow_contracts.Platform.Testnet.{testnet}
use glow_contracts.Airdrop.{Store, InstantiateMsg, ExecuteMsg, Msg, transfer}
use glow_contracts.Airdrop.Contract.{
  instantiate, claim, execute, execute_withdraw_expired_tokens, register_merkle_root,
}
use glow_contracts.Airdrop.Runs.{
  Reach, here, next, claim-once, execute_withdraw_expired_tokens-claim,
}

abbrev zeros : List ℕ
zeros =
    0 ∷ 0 ∷ 0 ∷ 0 ∷ 0 ∷ 0 ∷ 0 ∷ 0 ∷ 0 ∷ 0 ∷ 0 ∷ 0 ∷ 0 ∷ 0 ∷ 0 ∷ 0 ∷ 0 ∷ 0 ∷ 0 ∷ 0 ∷ 0 ∷ 0 ∷ 0 ∷ 0
    ∷ 0 ∷ 0 ∷ 0 ∷ 0 ∷ 0 ∷ 0 ∷ 0 ∷ 0 ∷ []

-- A platform whose digest is the first 32 bytes.
abbrev chain : Platform
chain = record testnet { keccak256 = λ b. take 32 (b ++ zeros) }

abbrev env_at : ℕ → Env
env_at time = record {
  block = record { block_height = time; block_time = time * 1_000_000_000 };
  contract = 9;
}

abbrev from : ℕ → MessageInfo
from account = record { sender = account; funds = [] }

abbrev first : InstantiateMsg
first = record { owner = 1; glow_token = 20 }

abbrev genesis : Store
genesis = record {
  config = record { owner = 1; glow_token = 20 };
  latest_stage = 0;
  merkle_roots = [];
  claimed = [];
  expiries = [];
}

abbrev after : Result (Store × List Msg) → Store
after (ok (s, m)) = s
after (err e) = genesis

abbrev root : List ℕ
root = testnet.hex_encode (take 32 (2 ∷ 50 ∷ zeros))

abbrev sibling : List ℕ
sibling = testnet.hex_encode (take 32 (9 ∷ 9 ∷ zeros))

abbrev registered : Store
registered = after (register_merkle_root chain genesis (env_at 100) (from 1) root 200)

abbrev claimed : Store
claimed = after (claim chain registered (env_at 150) (from 2) 1 50 (sibling ∷ []))

genesis_run : instantiate chain first ≡ ok genesis
unfolding instantiate
genesis_run = refl

registered_run :
    execute chain genesis (env_at 100) (from 1) (ExecuteMsg.register_merkle_root root 200)
    ≡ ok (registered, [])
unfolding execute register_merkle_root
registered_run = refl

claimed_run :
    claim chain registered (env_at 150) (from 2) 1 50 (sibling ∷ [])
    ≡ ok (claimed, transfer 20 2 50 ∷ [])
unfolding claim register_merkle_root
claimed_run = refl

claim-once_example : (e : Error) × (claim chain claimed (env_at 160) (from 2) 1 70 [] ≡ err e)
claim-once_example =
    claim-once chain registered claimed claimed (env_at 150) (env_at 160) (from 2) 1 50 70
      (sibling ∷ []) [] _ claimed_run here

life : Reach genesis registered
life =
    next chain registered (env_at 100) (from 1) (ExecuteMsg.register_merkle_root root 200) [] here
      registered_run

withdrawn_run :
    execute_withdraw_expired_tokens chain registered (env_at 210) (from 1) 5
    ≡ ok (registered, transfer 20 5 1_000_000_000 ∷ [])
unfolding execute_withdraw_expired_tokens register_merkle_root
withdrawn_run = refl

execute_withdraw_expired_tokens-claim_example :
    (e : Error) × (claim chain registered (env_at 220) (from 2) 1 50 (sibling ∷ []) ≡ err e)
execute_withdraw_expired_tokens-claim_example =
    execute_withdraw_expired_tokens-claim chain first genesis registered registered (env_at 210)
      (env_at 220) (from 1) (from 2) 5 1 50 (sibling ∷ []) _ genesis_run life withdrawn_run
      (omega arith)
