-- ===== src/Airdrop/Runs.antt =====
-- What holds through every sequence of calls of the airdrop.
use glow_contracts.Base.{
  ℕ, zero, suc, ◌+◌, ◌≤◌, ◌<◌, ◌≡◌, ◌∙◌, sym, ap, subst, ok, err, Error, some, List, Result-cases,
  with_ok, with_test, ok-injective, arith, inl, inr, ◌↔◌, Bool-cases, ltb_false→le, nat_eq, pair_eq,
  nat_beq_iff, ltb, nat_beq, true, false, Env, MessageInfo, Addr, or_default, Bool,
}
use glow_contracts.Dict.{Dict, lookup, insert, lookup-insert}
use glow_contracts.Platform.{Platform}
use glow_contracts.Airdrop.{Store, InstantiateMsg, ExecuteMsg, Msg}
use glow_contracts.Airdrop.Calls.{
  IsStaged, IsKept, claim-Claimed, withdraw_lem, execute-IsKept, expiry_found,
}
use glow_contracts.Airdrop.Contract.{
  execute, instantiate, claim, execute_withdraw_expired_tokens, read_claimed,
  read_expiry_at_seconds, check_expired,
}

-- The states that sequences of calls lead to, each on a platform that answers as it does then.
pub data Reach (s : Store) : Store → Type 1 where
  here : Reach s s
  next :
      {t : Store} (p : Platform) (u : Store) (env : Env) (info : MessageInfo) (msg : ExecuteMsg)
      (msgs : List Msg)
      → Reach s t
      → execute p t env info msg ≡ ok (u, msgs)
      → Reach s u

Reach-IsKept : (s t : Store) → Reach s t → IsKept s t
Reach-IsKept s t here = record { stages = λ h. h; claims = λ user stage h. h }
Reach-IsKept s t (next p u env info msg msgs r run) =
    let before = Reach-IsKept s _ r in
    let call = execute-IsKept p _ u env info msgs msg run in
    record {
      stages = λ h. call.stages (before.stages h);
      claims = λ user stage h. call.claims user stage (before.claims user stage h);
    }

-- After a claim of an account at a stage of the airdrop that succeeds, another claim of it at that
-- stage is an error, in any state that calls that succeed lead to, whatever the block, the amount
-- and the proof.
pub claim-once :
    (p : Platform) (s u t : Store) (env env' : Env) (info : MessageInfo) (stage amount amount' : ℕ)
    (proof proof' : List (List ℕ)) (msgs : List Msg)
    → claim p s env info stage amount proof ≡ ok (u, msgs)
    → Reach u t
    → (e : Error) × (claim p t env' info stage amount' proof' ≡ err e)
unfolding read_claimed
claim-once p s u t env env' info stage amount amount' proof proof' msgs run r =
    let c = claim-Claimed p s u env info msgs stage amount proof run in
    let recorded = (Reach-IsKept u t r).claims c.user stage (
      ap (λ (v : Store). or_default false (lookup (c.user, stage) v.claimed)) c.after
      ∙ newest c.user s.claimed) in
    elim (Result-cases (claim p t env' info stage amount' proof')) [
      | inl failed ↦ failed
      | inr ((v, m), again) ↦
          let d = claim-Claimed p t v env' info m stage amount' proof' again in
          absurd
            (clash c.user d.user t (ok-injective (sym c.user_lem ∙ d.user_lem)) recorded d.first)
    ]
  where
    newest :
        (user : Addr) (d : Dict (Addr × ℕ) Bool)
        → or_default false (lookup (user, stage) (insert (user, stage) true d)) ≡ true
    newest user d = ground (arith, lookup-insert (user, stage) (user, stage) true d)

    clash :
        (a b : Addr) (v : Store)
        → a ≡ b
        → or_default false (lookup (a, stage) v.claimed) ≡ true
        → or_default false (lookup (b, stage) v.claimed) ≡ false
        → ⊥
    clash a b v e h k = cc

instantiate-IsStaged :
    (p : Platform) (msg : InstantiateMsg) (s : Store) → instantiate p msg ≡ ok s → IsStaged s
unfolding instantiate
instantiate-IsStaged p msg s run = with_ok (p.addr_canonicalize msg.owner) _ run λ owner e1 r1.
    with_ok (p.addr_canonicalize msg.glow_token) _ r1
      λ glow e2 r2. subst IsStaged (ok-injective r2) (record { staged = λ stage expiry found. cc })

-- Each stage of the loop has expired.
check_expired_lem :
    (s : Store) (now stage remaining : ℕ)
    → check_expired s now stage remaining ≡ ok tt
    → (n expiry : ℕ) → stage ≤ n
    → n < stage + remaining
    → lookup n s.expiries ≡ some expiry
    → expiry ≤ now
unfolding check_expired
check_expired_lem s now stage zero h n expiry low high found = absurd (omega arith)
check_expired_lem s now stage (suc remaining) h n expiry low high found =
    with_ok (read_expiry_at_seconds s stage) _ h λ e e1 r1. with_test (ltb now e) _ _ r1 λ over r2.
      elim (Bool-cases (nat_beq stage n)) [
        | inl same ↦
            here_expired e (nat_beq_iff stage n) same (expiry_found s stage e e1)
              (ltb_false→le now e over)
        | inr other ↦
            check_expired_lem s now (suc stage) remaining r2 n expiry (ground arith) (omega arith)
              found
      ]
  where
    here_expired :
        (e : ℕ)
        → (nat_beq stage n ≡ true) ↔ (stage ≡ n)
        → nat_beq stage n ≡ true
        → lookup stage s.expiries ≡ some e
        → e ≤ now
        → expiry ≤ now
    here_expired e iff same f le = ground arith

-- From the instantiation of the airdrop on, in a state where the owner's withdrawal of expired
-- tokens succeeds, a claim at the time of the withdrawal or later is an error, whatever the
-- account, the stage, the amount and the proof.
pub execute_withdraw_expired_tokens-claim :
    (p : Platform) (msg : InstantiateMsg) (s t u : Store) (env env' : Env)
    (info info' : MessageInfo) (recipient : Addr) (stage amount : ℕ) (proof : List (List ℕ))
    (msgs : List Msg)
    → instantiate p msg ≡ ok s
    → Reach s t
    → execute_withdraw_expired_tokens p t env info recipient ≡ ok (u, msgs)
    → p.seconds env.block.block_time ≤ p.seconds env'.block.block_time
    → (e : Error) × (claim p t env' info' stage amount proof ≡ err e)
execute_withdraw_expired_tokens-claim p msg s t u env env' info info' recipient stage amount proof
      msgs run r withdrawn later =
    elim (Result-cases (claim p t env' info' stage amount proof)) [
      | inl failed ↦ failed
      | inr ((v, m), claimed) ↦
          let c = claim-Claimed p t v env' info' m stage amount proof claimed in
          let h = (Reach-IsKept s t r).stages (instantiate-IsStaged p msg s run) in
          let (low, high) = h.staged stage c.expiry c.expiry_lem in
          let over =
            check_expired_lem t (p.seconds env.block.block_time) 1 t.latest_stage
              (withdraw_lem p t u env info msgs recipient withdrawn).1 stage c.expiry low
              (omega (arith, high)) c.expiry_lem in
          absurd (omega (arith, over, later, c.in_time))
    ]
