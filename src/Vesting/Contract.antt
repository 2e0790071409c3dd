-- ===== src/Vesting/Contract.antt =====
-- The handlers of vesting (contracts/vesting/src/{contract,state}.rs).
use glow_contracts.Base.{
  ℕ, ◌/◌, min, max, ◌||◌, not, Option, none, some, List, [], ◌∷◌, Result, ok, std, ◌>>=◌, ◌>>◌,
  fail_if, or_fail, or_default, nat_beq, nat_eq, ltb, leb, minus, if◌then◌else◌, Addr, Env,
  MessageInfo,
}
use glow_contracts.Dict.{lookup, insert}
use glow_contracts.Platform.{Platform}
use glow_contracts.Vesting.{
  Store, Config, VestingInfo, VestingAccount, Schedule, InstantiateMsg, ExecuteMsg, Msg, transfer,
}

unfoldable pub read_vesting_info : Store → Addr → Result VestingInfo
read_vesting_info s address =
    or_fail (lookup address s.vesting_infos) (std "vesting info not found")

unfoldable pub store_vesting_info : Store → Addr → VestingInfo → Store
store_vesting_info s address i = record s { vesting_infos = insert address i s.vesting_infos }

unfoldable pub assert_vesting_schedules : List Schedule → ℕ → Result (Unit {0})
assert_vesting_schedules [] genesis_time = ok tt
assert_vesting_schedules ((start, (end, amount)) ∷ l) genesis_time = do
  fail_if (leb end start) (std "end_time must bigger than start_time")
  fail_if (ltb start genesis_time) (std "start_time must be equal or larger than genesis_time")
  assert_vesting_schedules l genesis_time

module _ (p : Platform) where
  open p use {add128, decimal_from_ratio, mul_decimal, addr_canonicalize, addr_humanize}

  unfoldable pub instantiate : InstantiateMsg → Result Store
  instantiate msg = do
    owner ← addr_canonicalize msg.owner
    glow_token ← addr_canonicalize msg.glow_token
    let config : Config = record {
      owner = owner;
      glow_token = glow_token;
      genesis_time = msg.genesis_time;
    }
    let s : Store = record { config = config; vesting_infos = [] }
    ok s

  unfoldable pub assert_owner_privilege : Store → Addr → Result (Unit {0})
  assert_owner_privilege s sender = do
    account ← addr_canonicalize sender
    fail_if (not (nat_beq s.config.owner account)) (std "unauthorized")
    ok tt

  unfoldable pub address_after : Option Addr → Addr → Result Addr
  address_after none old = ok old
  address_after (some address) old = addr_canonicalize address

  unfoldable pub update_config :
      Store → Option Addr → Option Addr → Option ℕ → Result (Store × List Msg)
  unfolding address_after
  update_config s owner glow_token genesis_time = do
    owner1 ← address_after owner s.config.owner
    glow_token1 ← address_after glow_token s.config.glow_token
    let config1 : Config = record {
      owner = owner1;
      glow_token = glow_token1;
      genesis_time = or_default s.config.genesis_time genesis_time;
    }
    ok (record s { config = config1 }, [])

  -- The loop over the accounts.
  unfoldable pub register_all : Store → List VestingAccount → Result Store
  unfolding assert_vesting_schedules store_vesting_info
  register_all s [] = ok s
  register_all s (a ∷ l) = do
    valid ← assert_vesting_schedules a.schedules s.config.genesis_time
    vesting_address ← addr_canonicalize a.address
    let info : VestingInfo = record {
      schedules = a.schedules;
      last_claim_time = s.config.genesis_time;
    }
    register_all (store_vesting_info s vesting_address info) l

  unfoldable pub register_vesting_accounts : Store → List VestingAccount → Result (Store × List Msg)
  unfolding register_all
  register_vesting_accounts s vesting_accounts = do
    registered ← register_all s vesting_accounts
    ok (registered, [])

  -- What one schedule releases from the last claim to a time.
  unfoldable pub released : ℕ → ℕ → Schedule → Result ℕ
  released last_claim_time current_time (start, (end, amount)) =
      if ltb current_time start || ltb end last_claim_time then ok 0 else do
        passed_time ← minus (min end current_time) (max start last_claim_time)
        time_period ← minus end start
        release_amount_per_time ← decimal_from_ratio amount time_period
        mul_decimal passed_time release_amount_per_time

  unfoldable pub sum_released : ℕ → ℕ → ℕ → List Schedule → Result ℕ
  unfolding released
  sum_released last_claim_time current_time claimable_amount [] = ok claimable_amount
  sum_released last_claim_time current_time claimable_amount (s ∷ l) = do
    amount ← released last_claim_time current_time s
    sum ← add128 claimable_amount amount
    sum_released last_claim_time current_time sum l

  unfoldable pub compute_claim_amount : ℕ → VestingInfo → Result ℕ
  unfolding sum_released
  compute_claim_amount current_time i = sum_released i.last_claim_time current_time 0 i.schedules

  -- The transfer of the claimed amount, when there is one.
  unfoldable pub claim_messages : Store → Addr → ℕ → Result (List Msg)
  claim_messages s address claim_amount = if nat_beq claim_amount 0 then ok [] else do
    glow_token ← addr_humanize s.config.glow_token
    ok (transfer glow_token address claim_amount ∷ [])

  unfoldable pub claim : Store → Env → MessageInfo → Result (Store × List Msg)
  unfolding read_vesting_info store_vesting_info compute_claim_amount claim_messages
  claim s env info = do
    let current_time = env.block.block_time / 1_000_000_000
    address_raw ← addr_canonicalize info.sender
    i ← read_vesting_info s address_raw
    claim_amount ← compute_claim_amount current_time i
    messages ← claim_messages s info.sender claim_amount
    ok (store_vesting_info s address_raw (record i { last_claim_time = current_time }), messages)

  unfoldable pub execute : Store → Env → MessageInfo → ExecuteMsg → Result (Store × List Msg)
  unfolding claim assert_owner_privilege update_config register_vesting_accounts
  execute s env info ExecuteMsg.claim = claim s env info
  execute s env info (ExecuteMsg.update_config owner glow_token genesis_time) = do
    owned ← assert_owner_privilege s info.sender
    update_config s owner glow_token genesis_time
  execute s env info (ExecuteMsg.register_vesting_accounts vesting_accounts) = do
    owned ← assert_owner_privilege s info.sender
    register_vesting_accounts s vesting_accounts
