-- ===== src/Airdrop/Contract.antt =====
-- The handlers of the airdrop (contracts/airdrop/src/{contract,state}.rs).
use Prim.Native.Nat.{compare, Ordering}
use glow_contracts.Base.{
  ℕ, zero, suc, ◌+◌, Bool, true, false, not, Option, none, some, List, [], ◌∷◌, ◌++◌, Result, ok,
  err, Error, std, panic, airdrop, AirdropError, ◌>>=◌, ◌>>◌, fail_if, or_fail, or_default, nat_beq,
  nat_eq, pair_eq, text_beq, ltb, leb, length, checked, if◌then◌else◌, Addr, Env, MessageInfo,
}
use glow_contracts.Dict.{lookup, insert}
use glow_contracts.Platform.{Platform}
use glow_contracts.Airdrop.{Store, Config, InstantiateMsg, ExecuteMsg, Msg, transfer}

-- The comparison of two hashes, byte by byte.
unfoldable pub bytes_cmp : List ℕ → List ℕ → Ordering
bytes_cmp (x ∷ xs) (y ∷ ys) = elim (compare x y) [
  | Ordering.lt ↦ Ordering.lt
  | Ordering.eq ↦ bytes_cmp xs ys
  | Ordering.gt ↦ Ordering.gt
]
bytes_cmp _ _ = Ordering.eq

unfoldable pub is_less : List ℕ → List ℕ → Bool
unfolding bytes_cmp
is_less a b = elim (bytes_cmp a b) [
  | Ordering.lt ↦ true
  | Ordering.eq ↦ false
  | Ordering.gt ↦ false
]

unfoldable pub read_claimed : Store → Addr → ℕ → Bool
read_claimed s user stage = or_default false (lookup (user, stage) s.claimed)

unfoldable pub read_merkle_root : Store → ℕ → Result (List ℕ)
read_merkle_root s stage = or_fail (lookup stage s.merkle_roots) (std "merkle root not found")

unfoldable pub read_expiry_at_seconds : Store → ℕ → Result ℕ
read_expiry_at_seconds s stage = or_fail (lookup stage s.expiries) (std "expiry not found")

-- The loop over the stages from one on: that each has expired.
unfoldable pub check_expired : Store → ℕ → (stage remaining : ℕ) → Result (Unit {0})
unfolding read_expiry_at_seconds
check_expired s now stage zero = ok tt
check_expired s now stage (suc remaining) = do
  expiry ← read_expiry_at_seconds s stage
  fail_if (ltb now expiry) (airdrop AirdropError.airdrop_not_expired)
  check_expired s now (suc stage) remaining

module _ (p : Platform) where
  open p use {
    seconds, addr_canonicalize, addr_humanize, token_balance, hex_decode, keccak256, addr_text,
    number_text,
  }

  -- `hex::decode_to_slice` into 32 bytes.
  unfoldable pub decode_to_slice : List ℕ → Error → Result (List ℕ)
  decode_to_slice text e = do
    bytes ← or_fail (hex_decode text) e
    fail_if (not (nat_beq (length bytes) 32)) e
    ok bytes

  -- The digest, which the code expects to have 32 bytes.
  unfoldable pub digest : List ℕ → Result (List ℕ)
  digest bytes =
      let hash = keccak256 bytes in if nat_beq (length hash) 32 then ok hash else err panic

  -- One step of the proof: the hash of the smaller and the larger of two.
  unfoldable pub join : List ℕ → List ℕ → Result (List ℕ)
  unfolding digest is_less
  join hash proof_buf =
      if is_less hash proof_buf then digest (hash ++ proof_buf) else digest (proof_buf ++ hash)

  unfoldable pub fold_proof : List ℕ → List (List ℕ) → Result (List ℕ)
  unfolding decode_to_slice join
  fold_proof hash [] = ok hash
  fold_proof hash (step ∷ proof) = do
    proof_buf ← decode_to_slice step (airdrop AirdropError.invalid_hex_proof)
    joined ← join hash proof_buf
    fold_proof joined proof

  unfoldable pub instantiate : InstantiateMsg → Result Store
  instantiate msg = do
    owner ← addr_canonicalize msg.owner
    glow_token ← addr_canonicalize msg.glow_token
    let config : Config = record { owner = owner; glow_token = glow_token }
    let s : Store = record {
      config = config;
      latest_stage = 0;
      merkle_roots = [];
      claimed = [];
      expiries = [];
    }
    ok s

  unfoldable pub owner_after : Option Addr → Addr → Result Addr
  owner_after none old = ok old
  owner_after (some owner) old = addr_canonicalize owner

  unfoldable pub update_config : Store → MessageInfo → Option Addr → Result (Store × List Msg)
  unfolding owner_after
  update_config s info owner = do
    sender ← addr_canonicalize info.sender
    fail_if (not (nat_beq sender s.config.owner)) (airdrop AirdropError.unauthorized)
    owner1 ← owner_after owner s.config.owner
    let config1 : Config = record s.config { owner = owner1 }
    ok (record s { config = config1 }, [])

  unfoldable pub execute_withdraw_expired_tokens :
      Store → Env → MessageInfo → Addr → Result (Store × List Msg)
  unfolding check_expired
  execute_withdraw_expired_tokens s env info recipient = do
    sender ← addr_canonicalize info.sender
    fail_if (not (nat_beq sender s.config.owner)) (airdrop AirdropError.unauthorized)
    fail_if (nat_beq s.latest_stage 0) (airdrop AirdropError.no_registered_airdrops)
    expired ← check_expired s (seconds env.block.block_time) 1 s.latest_stage
    glow_token ← addr_humanize s.config.glow_token
    balance ← token_balance glow_token env.contract
    ok (s, transfer glow_token recipient balance ∷ [])

  unfoldable pub register_merkle_root :
      Store → Env → MessageInfo → List ℕ → ℕ → Result (Store × List Msg)
  unfolding decode_to_slice
  register_merkle_root s env info merkle_root expiry_at_seconds = do
    sender ← addr_canonicalize info.sender
    fail_if (not (nat_beq sender s.config.owner)) (airdrop AirdropError.unauthorized)
    fail_if (leb expiry_at_seconds (seconds env.block.block_time))
        (airdrop AirdropError.invalid_expiry_at_seconds)
    root_buf ← decode_to_slice merkle_root (airdrop AirdropError.invalid_hex_merkle)
    stage ← checked 8 (s.latest_stage + 1)
    ok (
      record s {
        merkle_roots = insert stage merkle_root s.merkle_roots;
        latest_stage = stage;
        expiries = insert stage expiry_at_seconds s.expiries;
      },
      [],
    )

  unfoldable pub claim :
      Store → Env → MessageInfo → ℕ → ℕ → List (List ℕ) → Result (Store × List Msg)
  unfolding read_merkle_root read_claimed read_expiry_at_seconds digest fold_proof decode_to_slice
  claim s env info stage amount proof = do
    merkle_root ← read_merkle_root s stage
    user ← addr_canonicalize info.sender
    fail_if (read_claimed s user stage) (airdrop AirdropError.already_claimed)
    expiry ← read_expiry_at_seconds s stage
    fail_if (leb expiry (seconds env.block.block_time)) (airdrop AirdropError.airdrop_expired)
    leaf ← digest (addr_text info.sender ++ number_text amount)
    hash ← fold_proof leaf proof
    root_buf ← decode_to_slice merkle_root panic
    fail_if (not (text_beq root_buf hash)) (airdrop AirdropError.merkle_verification)
    glow_token ← addr_humanize s.config.glow_token
    ok (
      record s { claimed = insert (user, stage) true s.claimed },
      transfer glow_token info.sender amount ∷ [],
    )

  unfoldable pub execute : Store → Env → MessageInfo → ExecuteMsg → Result (Store × List Msg)
  execute s env info (ExecuteMsg.update_config owner) = update_config s info owner
  execute s env info (ExecuteMsg.withdraw_expired_tokens recipient) =
      execute_withdraw_expired_tokens s env info recipient
  execute s env info (ExecuteMsg.register_merkle_root merkle_root expiry_at_seconds) =
      register_merkle_root s env info merkle_root expiry_at_seconds
  execute s env info (ExecuteMsg.claim stage amount proof) = claim s env info stage amount proof
