-- ===== src/Staking/Runs.antt =====
-- Runs of the staking contract: the calls of `execute` (contracts/staking/src/contract.rs) that
-- succeed, in any order, with the amounts that they distribute and pay.
use glow_contracts.Base.{
  nat_eq, ℕ, ◌+◌, ◌*◌, ◌≤◌, ◌≡◌, ok, Option, some, none, List, [], ◌∷◌, with_ok, with_test, not,
  nat_beq, refl, sym, ◌∙◌, Result, subst, ap, ok-injective, Env, MessageInfo, Addr, arith,
}
use native.Mathlib.Nat.{mul-le-mul_left, le_of_mul-le-mul_right}
use glow_contracts.Dict.{Dict, lookup}
use glow_contracts.Dict.Distinct.{IsDistinct}
use glow_contracts.Platform.{Platform}
use glow_contracts.Staking.Types.{
  Store, StakerInfo, Msg, transfer, InstantiateMsg, Cw20HookMsg, ExecuteMsg,
}
use glow_contracts.Staking.Rewards.{distributed_amount}
use glow_contracts.Staking.Schedules.{valid_schedules}
use glow_contracts.Staking.Contract.{instantiate, hook, execute, receive_cw20}
use glow_contracts.Staking.Solvency.{IsSolvent, bonds, pending, credited}
use glow_contracts.Staking.Solvency.Calls.{
  bond-IsCounted, unbond-IsCounted, withdraw-IsCounted, update_config-IsCounted,
  migrate_staking-IsCounted,
}

-- What a call has distributed to the stakers: nothing when it changes the configuration alone.
abbrev pub Distributes : Platform → Store → Env → ExecuteMsg → ℕ → Type 0
Distributes p s env (ExecuteMsg.update_config owner schedule) d = ◌≡◌ {A = ℕ} d 0
Distributes p s env _ d =
    distributed_amount p s.config s.state (p.seconds env.block.block_time) ≡ ok d

-- The rewards that the messages of a call pay.
abbrev pub pays : ExecuteMsg → List Msg → ℕ
pays ExecuteMsg.withdraw (transfer token recipient n ∷ l) = n
pays _ _ = 0

-- The states that sequences of calls lead to, with what they have distributed and paid, and the
-- number of calls.
pub data Reach (p : Platform) (s : Store) : ℕ → ℕ → ℕ → Store → Type 0 where
  here : Reach p s 0 0 0 s
  next :
      {given paid calls : ℕ} {t : Store} (u : Store) (env : Env) (info : MessageInfo)
      (msg : ExecuteMsg) (msgs : List Msg) (d : ℕ)
      → Reach p s given paid calls t
      → execute p t env info msg ≡ ok (u, msgs)
      → Distributes p t env msg d
      → Reach p s (given + d) (paid + pays msg msgs) (calls + 1) u

same_amount : {m : Result ℕ} {d e : ℕ} → m ≡ ok d → m ≡ ok e → d ≡ e
same_amount h k = ok-injective (sym h ∙ k)

module _ (p : Platform) (given paid calls : ℕ) (s u : Store) (env : Env) (info : MessageInfo)
    (msgs : List Msg) (h : IsSolvent p given paid calls s) where
  idle-IsSolvent :
      (d : ℕ)
      → IsSolvent p given paid calls u
      → d ≡ 0
      → IsSolvent p (given + d) (paid + 0) (calls + 1) u
  idle-IsSolvent d k nothing = record {
    distinct = k.distinct;
    bonded = k.bonded;
    behind = k.behind;
    covered = omega (arith, k.covered, ap (λ n. n * p.decimal_one) nothing);
  }

  counted-IsSolvent :
      (d e out : ℕ)
      → distributed_amount p s.config s.state (p.seconds env.block.block_time) ≡ ok d
      → (distributed_amount p s.config s.state (p.seconds env.block.block_time) ≡ ok e)
        × IsSolvent p (given + e) (paid + out) (calls + 1) u
      → IsSolvent p (given + d) (paid + out) (calls + 1) u
  counted-IsSolvent d e out known (found, k) =
      subst (λ n. IsSolvent p (given + n) (paid + out) (calls + 1) u) (same_amount found known) k

  hook-IsSolvent :
      (sender : Addr) (amount d : ℕ) (msg : Option Cw20HookMsg)
      → distributed_amount p s.config s.state (p.seconds env.block.block_time) ≡ ok d
      → hook p s env info sender amount msg ≡ ok (u, msgs)
      → IsSolvent p (given + d) (paid + 0) (calls + 1) u
  unfolding hook
  hook-IsSolvent sender amount d none known run = cc
  hook-IsSolvent sender amount d (some Cw20HookMsg.bond) known run =
      with_ok (p.addr_canonicalize info.sender) _ run λ token e1 r1.
        with_test (not (nat_beq s.config.staking_token token)) _ _ r1 λ right r2.
          with_ok (p.addr_validate sender) _ r2 λ staker e3 r3.
            let (e, c) = bond-IsCounted p given paid calls s u env msgs h staker amount r3 in
            counted-IsSolvent d e 0 known c

  -- Every call that succeeds keeps the contract solvent.
  pub execute-IsSolvent :
      (msg : ExecuteMsg) (d : ℕ)
      → execute p s env info msg ≡ ok (u, msgs)
      → Distributes p s env msg d
      → IsSolvent p (given + d) (paid + pays msg msgs) (calls + 1) u
  unfolding execute receive_cw20
  execute-IsSolvent (ExecuteMsg.receive m) d run known =
      hook-IsSolvent m.sender m.amount d m.msg known run
  execute-IsSolvent (ExecuteMsg.unbond amount) d run known =
      let (e, c) = unbond-IsCounted p given paid calls s u env msgs h info amount run in
      counted-IsSolvent d e 0 known c
  execute-IsSolvent ExecuteMsg.withdraw d run known =
      let (e, (out, (token, (sent, c)))) =
        withdraw-IsCounted p given paid calls s u env msgs h info run in
      subst
        (λ (l : List Msg).
          IsSolvent p (given + d) (paid + pays ExecuteMsg.withdraw l) (calls + 1) u)
        (sym sent) (counted-IsSolvent d e out known c)
  execute-IsSolvent (ExecuteMsg.update_config owner schedule) d run known =
      idle-IsSolvent d
        (update_config-IsCounted p given paid calls s u env msgs h info owner schedule run) known
  execute-IsSolvent (ExecuteMsg.migrate_staking to) d run known =
      let (e, c) = migrate_staking-IsCounted p given paid calls s u env msgs h info to run in
      counted-IsSolvent d e 0 known c

-- A contract that has just been instantiated is solvent.
instantiate-IsSolvent :
    (p : Platform) (env : Env) (msg : InstantiateMsg) (s : Store)
    → instantiate p env msg ≡ ok s
    → IsSolvent p 0 0 0 s
unfolding instantiate
instantiate-IsSolvent p env msg s run =
    with_ok (valid_schedules msg.distribution_schedule) _ run λ v e1 r1.
      with_ok (p.addr_canonicalize msg.owner) _ r1 λ owner e2 r2.
        with_ok (p.addr_canonicalize msg.glow_token) _ r2 λ glow e3 r3.
          with_ok (p.addr_canonicalize msg.staking_token) _ r3 λ staking e4 r4.
            subst (IsSolvent p 0 0 0) (ok-injective r4) (record {
              distinct = tt;
              bonded = refl;
              behind = λ a i found. cc;
              covered = omega arith;
            })

Reach-IsSolvent :
    (p : Platform) (s t : Store) (given paid calls : ℕ)
    → Reach p s given paid calls t
    → IsSolvent p 0 0 0 s
    → IsSolvent p given paid calls t
Reach-IsSolvent p s t given paid calls here h = h
Reach-IsSolvent p s t given paid calls (next u env info msg msgs d r run known) h =
    execute-IsSolvent p _ _ _ _ u env info msgs (Reach-IsSolvent p s _ _ _ _ r h) msg d run known

-- From the instantiation of the staking contract on, after any sequence of calls that succeed, no
-- account has two entries, the bonds add up to the total, no staker's reward index exceeds the
-- global one, and the rewards paid, pending and accrued since each staker's last call are at most
-- the amounts distributed and one unit for each call.
pub run-IsSolvent :
    (p : Platform) (env : Env) (msg : InstantiateMsg) (s t : Store) (given paid calls : ℕ)
    → instantiate p env msg ≡ ok s
    → Reach p s given paid calls t
    → IsSolvent p given paid calls t
run-IsSolvent p env msg s t given paid calls run r =
    Reach-IsSolvent p s t given paid calls r (instantiate-IsSolvent p env msg s run)

-- When no staker is ahead of the global index, the stakers are credited at most what all bonds
-- would be at it.
credited-le :
    (g : ℕ) (d : Dict Addr StakerInfo)
    → IsDistinct d
    → ((a : Addr) (i : StakerInfo) → lookup a d ≡ some i → i.reward_index ≤ g)
    → credited d ≤ g * bonds d
credited-le g [] h behind = omega arith
credited-le g ((j, i) ∷ d) h behind =
    let rest = credited-le g d h.1 (λ a k found. behind a k (later a k found)) in
    let own = mul-le-mul_left i.bond_amount (behind j i (ground arith)) in omega (arith, rest, own)
  where
    later : (a : Addr) (k : StakerInfo) → lookup a d ≡ some k → lookup a ((j, i) ∷ d) ≡ some k
    later a k found = ground arith

-- From the instantiation of the staking contract on, after any sequence of calls that succeed, the
-- rewards that have been paid and those that are pending are together at most the amounts
-- distributed and one unit for each call.
pub run-paid :
    (p : Platform) (env : Env) (msg : InstantiateMsg) (s t : Store) (given paid calls : ℕ)
    → instantiate p env msg ≡ ok s
    → Reach p s given paid calls t
    → paid + pending t.stakers ≤ given + calls
run-paid p env msg s t given paid calls run r =
    let h = run-IsSolvent p env msg s t given paid calls run r in
    let low = credited-le t.state.global_reward_index t.stakers h.distinct h.behind in
    le_of_mul-le-mul_right {k = p.decimal_one}
      (omega (arith, h.covered, low, ap (λ n. t.state.global_reward_index * n) h.bonded))
      p.decimal_one_pos
