-- ===== src/Airdrop/Calls.antt =====
-- What the calls of the airdrop have done when they succeed, and what they keep.
use glow_contracts.Base.{
  ℕ, ◌+◌, ◌≤◌, ◌<◌, ◌≡◌, refl, sym, ap, subst, ok, Option, some, List, with_ok, with_test,
  ok-injective, or_fail-eq-ok, checked-eq-ok, arith, nat_eq, pair_eq, leb, not, nat_beq, true,
  false, checked, airdrop, AirdropError, Env, MessageInfo, Addr, ◌++◌, text_beq, panic, or_default,
}
use glow_contracts.Dict.{lookup, insert, lookup-insert}
use glow_contracts.Platform.{Platform}
use glow_contracts.Airdrop.{Store, ExecuteMsg, Msg}
use glow_contracts.Airdrop.Contract.{
  execute, claim, execute_withdraw_expired_tokens, register_merkle_root, update_config, owner_after,
  read_claimed, read_merkle_root, read_expiry_at_seconds, check_expired, decode_to_slice, digest,
  fold_proof,
}

-- Only the stages from one to the latest have a time of expiry.
pub record IsStaged (s : Store) : Type 0 where
  pub staged :
      (stage expiry : ℕ)
      → lookup stage s.expiries ≡ some expiry
      → (0 < stage) × (stage ≤ s.latest_stage)

-- What a call that succeeds keeps: the stages, and each claim that is recorded.
pub record IsKept (s u : Store) : Type 0 where
  pub stages : IsStaged s → IsStaged u
  pub claims :
      (user : Addr) (stage : ℕ)
      → read_claimed s user stage ≡ true
      → read_claimed u user stage ≡ true

-- A claim that succeeds.
pub record Claimed (p : Platform) (s u : Store) (env : Env) (info : MessageInfo) (stage : ℕ)
    : Type 0 where
  pub user : Addr
  pub user_lem : p.addr_canonicalize info.sender ≡ ok user
  pub first : read_claimed s user stage ≡ false
  pub expiry : ℕ
  pub expiry_lem : lookup stage s.expiries ≡ some expiry
  pub in_time : p.seconds env.block.block_time < expiry
  pub after : u ≡ record s { claimed = insert (user, stage) true s.claimed }

pub expiry_found :
    (s : Store) (stage expiry : ℕ)
    → read_expiry_at_seconds s stage ≡ ok expiry
    → lookup stage s.expiries ≡ some expiry
unfolding read_expiry_at_seconds
expiry_found s stage expiry h = or_fail-eq-ok (lookup stage s.expiries) _ h

leb_false→lt : (a b : ℕ) → leb a b ≡ false → b < a
leb_false→lt a b h = ground arith

module _ (p : Platform) (s u : Store) (env : Env) (info : MessageInfo) (msgs : List Msg) where
  pub claim-Claimed :
      (stage amount : ℕ) (proof : List (List ℕ))
      → claim p s env info stage amount proof ≡ ok (u, msgs)
      → Claimed p s u env info stage
  unfolding claim
  claim-Claimed stage amount proof run = with_ok (read_merkle_root s stage) _ run λ root e1 r1.
      with_ok (p.addr_canonicalize info.sender) _ r1 λ user e2 r2.
        with_test (read_claimed s user stage) _ _ r2 λ first r3.
          with_ok (read_expiry_at_seconds s stage) _ r3 λ expiry e4 r4.
            with_test (leb expiry (p.seconds env.block.block_time)) _ _ r4 λ in_time r5.
              with_ok (digest p (p.addr_text info.sender ++ p.number_text amount)) _ r5
                λ leaf e6 r6. with_ok (fold_proof p leaf proof) _ r6 λ hash e7 r7.
                  with_ok (decode_to_slice p root panic) _ r7 λ root_buf e8 r8.
                    with_test (not (text_beq root_buf hash)) _ _ r8 λ verified r9.
                      with_ok (p.addr_humanize s.config.glow_token) _ r9 λ glow e10 r10. record {
                        user = user;
                        user_lem = e2;
                        first = first;
                        expiry = expiry;
                        expiry_lem = expiry_found s stage expiry e4;
                        in_time = leb_false→lt expiry (p.seconds env.block.block_time) in_time;
                        after = ap (λ (t : Store × List Msg). t.0) (ok-injective (sym r10));
                      }

  configured-IsKept : u ≡ record s { config = u.config } → IsKept s u
  unfolding read_claimed
  configured-IsKept e =
      subst (IsKept s) (sym e)
        (record { stages = λ h. record { staged = h.staged }; claims = λ user stage h. h })

  update_config-IsKept :
      (owner : Option Addr) → update_config p s info owner ≡ ok (u, msgs) → IsKept s u
  unfolding update_config
  update_config-IsKept owner run = with_ok (p.addr_canonicalize info.sender) _ run λ sender e1 r1.
      with_test (not (nat_beq sender s.config.owner)) _ _ r1 λ owned r2.
        with_ok (owner_after p owner s.config.owner) _ r2 λ owner1 e3 r3.
          let e = ap (λ (t : Store × List Msg). t.0) (ok-injective (sym r3)) in
          configured-IsKept (rw e refl)

  pub withdraw_lem :
      (recipient : Addr)
      → execute_withdraw_expired_tokens p s env info recipient ≡ ok (u, msgs)
      → (u ≡ s) × (check_expired s (p.seconds env.block.block_time) 1 s.latest_stage ≡ ok tt)
  unfolding execute_withdraw_expired_tokens
  withdraw_lem recipient run = with_ok (p.addr_canonicalize info.sender) _ run λ sender e1 r1.
      with_test (not (nat_beq sender s.config.owner)) _ _ r1 λ owned r2.
        with_test (nat_beq s.latest_stage 0) _ _ r2 λ some_stage r3.
          with_ok (check_expired s (p.seconds env.block.block_time) 1 s.latest_stage) _ r3
            λ done e4 r4. with_ok (p.addr_humanize s.config.glow_token) _ r4 λ glow e5 r5.
              with_ok (p.token_balance glow env.contract) _ r5
                λ balance e6 r6. (ap (λ (t : Store × List Msg). t.0) (ok-injective (sym r6)), e4)

  register_merkle_root-IsKept :
      (root : List ℕ) (expiry : ℕ)
      → register_merkle_root p s env info root expiry ≡ ok (u, msgs)
      → IsKept s u
  unfolding register_merkle_root read_claimed
  register_merkle_root-IsKept root expiry run =
      with_ok (p.addr_canonicalize info.sender) _ run λ sender e1 r1.
        with_test (not (nat_beq sender s.config.owner)) _ _ r1 λ owned r2.
          with_test (leb expiry (p.seconds env.block.block_time)) _ _ r2 λ future r3.
            with_ok (decode_to_slice p root (airdrop AirdropError.invalid_hex_merkle)) _ r3
              λ buf e4 r4. with_ok (checked 8 (s.latest_stage + 1)) _ r4 λ stage e5 r5.
                subst (IsKept s) (ap (λ (t : Store × List Msg). t.0) (ok-injective r5)) (record {
                  stages = λ h. record {
                    staged = λ n e found. ground (
                      arith,
                      h.staged n e,
                      checked-eq-ok 8 (s.latest_stage + 1) e5,
                      lookup-insert n stage expiry s.expiries,
                    );
                  };
                  claims = λ user n h. h;
                })

  claim-IsKept :
      (stage amount : ℕ) (proof : List (List ℕ))
      → claim p s env info stage amount proof ≡ ok (u, msgs)
      → IsKept s u
  unfolding read_claimed
  claim-IsKept stage amount proof run =
      let c = claim-Claimed stage amount proof run in
      subst (IsKept s) (sym c.after) (record {
        stages = λ h. record { staged = h.staged };
        claims = λ user n h. recorded user n c.user h;
      })
    where
      recorded :
          (user : Addr) (n : ℕ) (other : Addr)
          → or_default false (lookup (user, n) s.claimed) ≡ true
          → or_default false (lookup (user, n) (insert (other, stage) true s.claimed)) ≡ true
      recorded user n other h =
          ground (arith, lookup-insert (user, n) (other, stage) true s.claimed)

  pub execute-IsKept : (msg : ExecuteMsg) → execute p s env info msg ≡ ok (u, msgs) → IsKept s u
  unfolding execute
  execute-IsKept (ExecuteMsg.update_config owner) run = update_config-IsKept owner run
  execute-IsKept (ExecuteMsg.withdraw_expired_tokens recipient) run =
      let e = (withdraw_lem recipient run).0 in configured-IsKept (rw e refl)
  execute-IsKept (ExecuteMsg.register_merkle_root root expiry) run =
      register_merkle_root-IsKept root expiry run
  execute-IsKept (ExecuteMsg.claim stage amount proof) run = claim-IsKept stage amount proof run
