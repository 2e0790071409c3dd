-- ===== src/Distributor/Contract.antt =====
-- The handlers of the distributor, and its query of the emission rate
-- (contracts/distributor/src/contract.rs).
use glow_contracts.Base.{
  ℕ, Bool, false, ◌||◌, not, Option, none, some, List, [], ◌∷◌, ◌++◌, Result, ok, std, ◌>>=◌, ◌>>◌,
  fail_if, or_default, length, nat_beq, ltb, if◌then◌else◌, Addr, MessageInfo,
}
use glow_contracts.Platform.{Platform}
use glow_contracts.Distributor.{Config, InstantiateMsg, ConfigUpdate, ExecuteMsg, Msg, transfer}

-- Whether an account is in the list.
unfoldable pub any_is : Addr → List Addr → Bool
any_is a [] = false
any_is a (w ∷ l) = nat_beq w a || any_is a l

-- The list without an account.
unfoldable pub without : Addr → List Addr → List Addr
without a [] = []
without a (w ∷ l) = let rest = without a l in if nat_beq w a then rest else w ∷ rest

module _ (p : Platform) where
  open p use {one, dec_mul, addr_canonicalize, addr_humanize}

  unfoldable pub canonicalize_all : List Addr → Result (List Addr)
  canonicalize_all [] = ok []
  canonicalize_all (w ∷ l) = do
    raw ← addr_canonicalize w
    rest ← canonicalize_all l
    ok (raw ∷ rest)

  unfoldable pub instantiate : InstantiateMsg → Result Config
  unfolding canonicalize_all
  instantiate msg = do
    whitelist ← canonicalize_all msg.whitelist
    fail_if (ltb msg.increment_multiplier one)
        (std "Increment multiplier must be equal or greater than 1")
    fail_if (ltb one msg.decrement_multiplier)
        (std "Decrement multiplier must be equal or smaller than 1")
    fail_if (ltb msg.emission_cap msg.emission_floor)
        (std "Emission cap must be greater or equal than emission floor")
    owner ← addr_canonicalize msg.owner
    glow_token ← addr_canonicalize msg.glow_token
    let config : Config = record {
      owner = owner;
      glow_token = glow_token;
      whitelist = whitelist;
      spend_limit = msg.spend_limit;
      emission_cap = msg.emission_cap;
      emission_floor = msg.emission_floor;
      increment_multiplier = msg.increment_multiplier;
      decrement_multiplier = msg.decrement_multiplier;
    }
    ok config

  unfoldable pub check_owner : Config → MessageInfo → Result (Unit {0})
  check_owner config info = do
    sender ← addr_canonicalize info.sender
    fail_if (not (nat_beq config.owner sender)) (std "Unauthorized")
    ok tt

  unfoldable pub owner_after : Option Addr → Addr → Result Addr
  owner_after none old = ok old
  owner_after (some owner) old = addr_canonicalize owner

  unfoldable pub increment_after : Option ℕ → ℕ → Result ℕ
  increment_after none old = ok old
  increment_after (some multiplier) old = do
    fail_if (ltb multiplier one) (std "Increment multiplier must be equal or greater than 1")
    ok multiplier

  unfoldable pub decrement_after : Option ℕ → ℕ → Result ℕ
  decrement_after none old = ok old
  decrement_after (some multiplier) old = do
    fail_if (ltb one multiplier) (std "Decrement multiplier must be equal or smaller than 1")
    ok multiplier

  unfoldable pub update_config : Config → MessageInfo → ConfigUpdate → Result (Config × List Msg)
  unfolding check_owner owner_after increment_after decrement_after
  update_config config info update = do
    owned ← check_owner config info
    owner ← owner_after update.owner config.owner
    let emission_cap = or_default config.emission_cap update.emission_cap
    let emission_floor = or_default config.emission_floor update.emission_floor
    increment ← increment_after update.increment_multiplier config.increment_multiplier
    decrement ← decrement_after update.decrement_multiplier config.decrement_multiplier
    fail_if (ltb emission_cap emission_floor)
        (std "Emission cap must be greater or equal than emission floor")
    let updated : Config = record config {
      owner = owner;
      spend_limit = or_default config.spend_limit update.spend_limit;
      emission_cap = emission_cap;
      emission_floor = emission_floor;
      increment_multiplier = increment;
      decrement_multiplier = decrement;
    }
    ok (updated, [])

  unfoldable pub add_distributor : Config → MessageInfo → Addr → Result (Config × List Msg)
  unfolding check_owner any_is
  add_distributor config info distributor = do
    owned ← check_owner config info
    distributor_raw ← addr_canonicalize distributor
    fail_if (any_is distributor_raw config.whitelist) (std "Distributor already registered")
    ok (record config { whitelist = config.whitelist ++ (distributor_raw ∷ []) }, [])

  unfoldable pub remove_distributor : Config → MessageInfo → Addr → Result (Config × List Msg)
  unfolding check_owner without
  remove_distributor config info distributor = do
    owned ← check_owner config info
    distributor_raw ← addr_canonicalize distributor
    let whitelist = without distributor_raw config.whitelist
    fail_if (nat_beq (length config.whitelist) (length whitelist)) (std "Distributor not found")
    ok (record config { whitelist = whitelist }, [])

  unfoldable pub spend : Config → MessageInfo → Addr → ℕ → Result (Config × List Msg)
  unfolding any_is
  spend config info recipient amount = do
    sender_raw ← addr_canonicalize info.sender
    fail_if (not (any_is sender_raw config.whitelist)) (std "unauthorized")
    fail_if (ltb config.spend_limit amount) (std "Cannot spend more than spend_limit")
    glow_token ← addr_humanize config.glow_token
    ok (config, transfer glow_token recipient amount ∷ [])

  unfoldable pub execute : Config → MessageInfo → ExecuteMsg → Result (Config × List Msg)
  unfolding update_config spend add_distributor remove_distributor
  execute config info (ExecuteMsg.update_config update) = update_config config info update
  execute config info (ExecuteMsg.spend recipient amount) = spend config info recipient amount
  execute config info (ExecuteMsg.add_distributor a) = add_distributor config info a
  execute config info (ExecuteMsg.remove_distributor a) = remove_distributor config info a

  -- The rate by the award and the target.
  unfoldable pub moved_rate : Config → (current_award target_award rate : ℕ) → Result ℕ
  moved_rate config current_award target_award rate =
      if ltb current_award target_award
      then dec_mul rate config.increment_multiplier
      else if ltb target_award current_award
      then dec_mul rate config.decrement_multiplier
      else ok rate

  -- The rate between the floor and the cap.
  unfoldable pub clamped_rate : Config → ℕ → ℕ
  clamped_rate config rate =
      if ltb config.emission_cap rate
      then config.emission_cap
      else if ltb rate config.emission_floor
      then config.emission_floor
      else rate

  unfoldable pub query_glow_emission_rate :
      Config → (current_award target_award rate : ℕ) → Result ℕ
  unfolding moved_rate clamped_rate
  query_glow_emission_rate config current_award target_award rate = do
    moved ← moved_rate config current_award target_award rate
    ok (clamped_rate config moved)
