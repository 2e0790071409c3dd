-- ===== src/Gov/Staking.antt =====
-- Staked tokens and their shares (contracts/gov/src/staking.rs).
pub mod Success
pub mod Price
use glow_contracts.Base.{
  ℕ, ◌+◌, ◌*◌, max, zero, suc, Bool, true, false, ◌||◌, Option, none, some, List, [], ◌∷◌, Result,
  ok, err, gov, GovError, panic, ◌>>=◌, ◌>>◌, fail_if, or_fail, or_default, nat_beq, nat_eq,
  pair_eq, ltb, checked, minus, divided, if◌then◌else◌, Addr, MessageInfo, Env,
}
use glow_contracts.Dict.{Dict, lookup, insert, remove}
use glow_contracts.Platform.{Platform}
use glow_contracts.Gov.Types.{
  Store, State, Config, TokenManager, VoterInfo, Poll, PollStatus, in_progress, status_beq, Msg,
  transfer,
}

abbrev pub no_tokens : TokenManager
no_tokens = record { share = 0; locked_balance = [] }

-- The locked balances of polls that are in progress, and the voters without those of the others.
unfoldable pub retain_locked :
    Dict ℕ Poll
    → Addr
    → Dict (ℕ × Addr) VoterInfo
    → List (ℕ × VoterInfo)
    → Result (Dict (ℕ × Addr) VoterInfo × List (ℕ × VoterInfo))
retain_locked polls voter voters [] = ok (voters, [])
retain_locked polls voter voters ((poll_id, v) ∷ l) = do
  poll ← or_fail (lookup poll_id polls) panic
  let live = status_beq poll.status in_progress
  (rest, kept) ←
      retain_locked polls voter (if live then voters else remove (poll_id, voter) voters) l
  ok (rest, if live then (poll_id, v) ∷ kept else kept)

abbrev pub largest : List (ℕ × VoterInfo) → ℕ
largest [] = 0
largest ((poll_id, v) ∷ l) = max v.balance (largest l)

unfoldable pub compute_locked_balance :
    Store → TokenManager → Addr → Result (Store × (TokenManager × ℕ))
unfolding retain_locked
compute_locked_balance s token_manager voter = do
  (voters, kept) ← retain_locked s.polls voter s.poll_voters token_manager.locked_balance
  ok (
    record s { poll_voters = voters },
    (record token_manager { locked_balance = kept }, largest kept),
  )

module _ (p : Platform) where
  open p use {add128, sub128, multiply_ratio128, addr_canonicalize, addr_humanize, token_balance}

  -- The contract's own balance of GLOW.
  unfoldable pub glow_balance : Config → State → Result ℕ
  glow_balance config state = do
    glow_token ← addr_humanize config.glow_token
    contract ← addr_humanize state.contract_addr
    token_balance glow_token contract

  unfoldable pub stake_voting_tokens : Store → Addr → ℕ → Result (Store × List Msg)
  unfolding glow_balance
  stake_voting_tokens s sender amount = do
    fail_if (nat_beq amount 0) (gov GovError.insufficient_funds)
    key ← addr_canonicalize sender
    let token_manager = or_default no_tokens (lookup key s.bank)
    balance ← glow_balance s.config s.state
    not_staked ← add128 s.state.total_deposit amount
    total_balance ← sub128 balance not_staked
    share ←
        if nat_beq total_balance 0 || nat_beq s.state.total_share 0
        then ok amount
        else multiply_ratio128 amount s.state.total_share total_balance
    user_share ← add128 token_manager.share share
    total_share ← add128 s.state.total_share share
    let state1 : State = record s.state { total_share = total_share }
    let manager1 : TokenManager = record token_manager { share = user_share }
    ok (record s { state = state1; bank = insert key manager1 s.bank }, [])

  -- The shares that a withdrawal takes: those of the amount, one at least, or all that is free.
  unfoldable pub shares_withdrawn :
      Option ℕ → (user_share locked_share total_share total_balance : ℕ) → Result ℕ
  shares_withdrawn none user_share locked_share total_share total_balance =
      minus user_share locked_share
  shares_withdrawn (some v) user_share locked_share total_share total_balance = do
    share ← multiply_ratio128 v total_share total_balance
    ok (max share 1)

  unfoldable pub amount_withdrawn :
      Option ℕ → (withdraw_share total_share total_balance : ℕ) → Result ℕ
  amount_withdrawn none withdraw_share total_share total_balance = do
    product ← checked 128 (withdraw_share * total_balance)
    divided product total_share
  amount_withdrawn (some v) withdraw_share total_share total_balance = ok v

  unfoldable pub send_tokens : Addr → Addr → ℕ → Result (List Msg)
  send_tokens asset_token recipient amount = do
    contract ← addr_humanize asset_token
    receiver ← addr_humanize recipient
    ok (transfer contract receiver amount ∷ [])

  unfoldable pub withdraw_voting_tokens : Store → MessageInfo → Option ℕ → Result (Store × List Msg)
  unfolding glow_balance compute_locked_balance shares_withdrawn amount_withdrawn send_tokens
  withdraw_voting_tokens s info amount = do
    key ← addr_canonicalize info.sender
    token_manager ← or_fail (lookup key s.bank) (gov GovError.nothing_staked)
    let total_share = s.state.total_share
    balance ← glow_balance s.config s.state
    total_balance ← sub128 balance s.state.total_deposit
    (s1, (manager1, locked_balance)) ← compute_locked_balance s token_manager key
    product ← checked 128 (locked_balance * total_share)
    locked_share ← divided product total_balance
    let user_share = manager1.share
    withdraw_share ← shares_withdrawn amount user_share locked_share total_share total_balance
    withdraw_amount ← amount_withdrawn amount withdraw_share total_share total_balance
    claimed ← checked 128 (locked_share + withdraw_share)
    fail_if (ltb user_share claimed) (gov GovError.invalid_withdraw_amount)
    share ← minus user_share withdraw_share
    total ← minus total_share withdraw_share
    let state2 : State = record s.state { total_share = total }
    let manager2 : TokenManager = record manager1 { share = share }
    msgs ← send_tokens s.config.glow_token key withdraw_amount
    ok (record s1 { state = state2; bank = insert key manager2 s1.bank }, msgs)
