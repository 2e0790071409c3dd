-- ===== src/Vesting/Runs.antt =====
-- Runs of vesting: the calls of `execute` (contracts/vesting/src/contract.rs) that succeed, at times
-- that do not decrease, with the amounts that they register and pay.
use glow_contracts.Base.{
  ℕ, ◌+◌, ◌*◌, ◌/◌, ◌≤◌, ◌≡◌, refl, sym, ap, subst, ◌∙◌, ok, Option, some, List, [], ◌∷◌, with_ok,
  ok-injective, or_fail-eq-ok, or_default, arith, nat_beq, nat_beq_iff, nat_eq, Bool-cases, inl,
  inr, Env, MessageInfo, Addr,
}
use native.Mathlib.Nat.{le_of_mul-le-mul_right}
use glow_contracts.Dict.{lookup, total, measured, lookup-insert, total-insert}
use glow_contracts.Platform.{Platform}
use glow_contracts.Vesting.{
  Store, VestingInfo, VestingAccount, InstantiateMsg, ExecuteMsg, Msg, transfer,
}
use glow_contracts.Vesting.Claims.{
  amount_of, left, Timely, left-amount_of, Timely-later, Timely-now, sum_released_lem,
}
use glow_contracts.Vesting.Contract.{
  instantiate, execute, claim, update_config, register_vesting_accounts, register_all,
  read_vesting_info, store_vesting_info, compute_claim_amount, claim_messages,
  assert_vesting_schedules, assert_owner_privilege, address_after,
}

-- The amount of the schedules that accounts are registered with.
abbrev pub registered_amount : List VestingAccount → ℕ
registered_amount [] = 0
registered_amount (a ∷ l) = amount_of a.schedules + registered_amount l

abbrev pub registers : ExecuteMsg → ℕ
registers (ExecuteMsg.register_vesting_accounts l) = registered_amount l
registers _ = 0

-- The tokens that messages transfer.
abbrev pub pays : List Msg → ℕ
pays [] = 0
pays (transfer token recipient n ∷ l) = n + pays l

-- The states that sequences of calls lead to, with the time of the last one and the amounts that
-- the calls have registered and paid.
pub data Reach (p : Platform) (s : Store) : ℕ → ℕ → ℕ → Store → Type 0 where
  here : Reach p s 0 0 0 s
  next :
      {now registered paid : ℕ} {t : Store} (u : Store) (env : Env) (info : MessageInfo)
      (msg : ExecuteMsg) (msgs : List Msg)
      → Reach p s now registered paid t
      → now ≤ env.block.block_time / 1_000_000_000
      → execute p t env info msg ≡ ok (u, msgs)
      → Reach p s
          (env.block.block_time / 1_000_000_000)
          (registered + registers msg)
          (paid + pays msgs)
          u

module _ (p : Platform) where
  abbrev left_of : VestingInfo → ℕ
  left_of i = left p i.last_claim_time i.schedules

  -- What is paid and what is left are covered by what is registered.
  record IsFunded (now registered paid : ℕ) (s : Store) : Type 0 where
    timely :
        (k : Addr) (i : VestingInfo)
        → lookup k s.vesting_infos ≡ some i
        → Timely now i.last_claim_time i.schedules
    covered : paid * p.decimal_one + total left_of s.vesting_infos ≤ registered * p.decimal_one

  -- The account of a key takes a new value.
  store-IsFunded :
      (now then registered paid registered' paid' : ℕ) (s : Store) (k : Addr) (i : VestingInfo)
      → IsFunded now registered paid s
      → now ≤ then
      → Timely then i.last_claim_time i.schedules
      → paid' * p.decimal_one + left_of i + registered * p.decimal_one
        ≤ registered' * p.decimal_one
          + paid * p.decimal_one
          + measured left_of (lookup k s.vesting_infos)
      → IsFunded then registered' paid' (store_vesting_info s k i)
  unfolding store_vesting_info
  store-IsFunded now then registered paid registered' paid' s k i h le timely cover = record {
    timely = λ j i' found.
        let e = sym (lookup-insert j k i s.vesting_infos) ∙ found in
        elim (Bool-cases (nat_beq k j)) [
          | inl same ↦
              subst (λ (v : VestingInfo). Timely then v.last_claim_time v.schedules)
                (ap (or_default i) (rw same at e)) timely
          | inr other ↦
              Timely-later i'.last_claim_time now then i'.schedules le
                (h.timely j i' (rw other at e))
        ];
    covered = omega (arith, h.covered, cover, total-insert left_of k i s.vesting_infos);
  }

  later-IsFunded :
      (now then registered paid registered' paid' : ℕ) (s u : Store)
      → IsFunded now registered paid s
      → now ≤ then
      → registered ≡ registered'
      → paid ≡ paid'
      → s.vesting_infos ≡ u.vesting_infos
      → IsFunded then registered' paid' u
  later-IsFunded now then registered paid registered' paid' s u h le e1 e2 e3 = record {
    timely = λ k i found.
        Timely-later i.last_claim_time now then i.schedules le
          (h.timely k i (ap (λ d. lookup k d) e3 ∙ found));
    covered = omega (
      arith,
      h.covered,
      ap (λ n. n * p.decimal_one) e1,
      ap (λ n. n * p.decimal_one) e2,
      ap (λ d. total left_of d) e3,
    );
  }

  pays-claim_messages :
      (s : Store) (address : Addr) (n : ℕ) (msgs : List Msg)
      → claim_messages p s address n ≡ ok msgs
      → pays msgs ≡ n
  unfolding claim_messages
  pays-claim_messages s address n msgs h = elim (Bool-cases (nat_beq n 0)) [
    | inl none_due ↦
        ap pays (sym (ok-injective (rw none_due at h))) ∙ sym ((nat_beq_iff n 0).0 none_due)
    | inr due ↦
        with_ok (p.addr_humanize s.config.glow_token) _ (rw due at h)
          λ token e1 r1. let e : n + 0 ≡ n = omega arith in ap pays (sym (ok-injective r1)) ∙ e
  ]

  module _ (now registered paid : ℕ) where
    -- What a claim pays is no longer left.
    claim_cover :
        (s : Store) (raw : Addr) (i : VestingInfo) (n then : ℕ) (msgs : List Msg)
        → IsFunded now registered paid s
        → now ≤ then
        → lookup raw s.vesting_infos ≡ some i
        → compute_claim_amount p then i ≡ ok n
        → pays msgs ≡ n
        → (paid + pays msgs) * p.decimal_one + left p then i.schedules + registered * p.decimal_one
          ≤ (registered + 0) * p.decimal_one
            + paid * p.decimal_one
            + measured left_of (lookup raw s.vesting_infos)
    unfolding compute_claim_amount
    claim_cover s raw i n then msgs h le found run e =
        let timely =
          Timely-later i.last_claim_time now then i.schedules le (h.timely raw i found) in
        rw found omega (
          arith,
          sum_released_lem p i.last_claim_time then 0 i.schedules n run timely,
          ap (λ k. k * p.decimal_one) e,
        )

    claim-IsFunded :
        (s u : Store) (env : Env) (info : MessageInfo) (msgs : List Msg)
        → IsFunded now registered paid s
        → now ≤ env.block.block_time / 1_000_000_000
        → claim p s env info ≡ ok (u, msgs)
        → IsFunded (env.block.block_time / 1_000_000_000) (registered + 0) (paid + pays msgs) u
    unfolding claim read_vesting_info compute_claim_amount
    claim-IsFunded s u env info msgs h le run =
        let then = env.block.block_time / 1_000_000_000 in
        with_ok (p.addr_canonicalize info.sender) _ run λ raw e1 r1.
          with_ok (read_vesting_info s raw) _ r1 λ i e2 r2.
            with_ok (compute_claim_amount p then i) _ r2 λ n e3 r3.
              with_ok (claim_messages p s info.sender n) _ r3 λ m e4 r4.
                let found = or_fail-eq-ok (lookup raw s.vesting_infos) _ e2 in
                subst
                  (λ (a : Store × List Msg). IsFunded then (registered + 0) (paid + pays a.1) a.0)
                  (ok-injective r4)
                  (store-IsFunded now then registered paid (registered + 0) (paid + pays m) s raw
                    (record i { last_claim_time = then }) h le (Timely-now then i.schedules)
                    (claim_cover s raw i n then m h le found e3
                      (pays-claim_messages s info.sender n m e4)))

    update_config-IsFunded :
        (s u : Store) (then : ℕ) (owner glow_token : Option Addr) (genesis_time : Option ℕ)
        (msgs : List Msg)
        → IsFunded now registered paid s
        → now ≤ then
        → update_config p s owner glow_token genesis_time ≡ ok (u, msgs)
        → IsFunded then (registered + 0) (paid + pays msgs) u
    unfolding update_config
    update_config-IsFunded s u then owner glow_token genesis_time msgs h le run =
        with_ok (address_after p owner s.config.owner) _ run λ owner1 e1 r1.
          with_ok (address_after p glow_token s.config.glow_token) _ r1 λ token1 e2 r2.
            subst (λ (a : Store × List Msg). IsFunded then (registered + 0) (paid + pays a.1) a.0)
              (ok-injective r2)
              (later-IsFunded now then registered paid (registered + 0) (paid + 0) s _ h le
                (omega arith) (omega arith) refl)

  register_all-IsFunded :
      (now then registered paid : ℕ) (l : List VestingAccount) (s u : Store)
      → IsFunded now registered paid s
      → now ≤ then
      → register_all p s l ≡ ok u
      → IsFunded then (registered + registered_amount l) (paid + 0) u
  unfolding register_all
  register_all-IsFunded now then registered paid [] s u h le run =
      later-IsFunded now then registered paid (registered + 0) (paid + 0) s u h le (omega arith)
        (omega arith) (ap (λ (t : Store). t.vesting_infos) (ok-injective run))
  register_all-IsFunded now then registered paid (a ∷ l) s u h le run =
      let genesis = s.config.genesis_time in
      with_ok (assert_vesting_schedules a.schedules genesis) _ run λ valid e1 r1.
        with_ok (p.addr_canonicalize a.address) _ r1 λ k e2 r2.
          let (all_left, timely) = left-amount_of p genesis then a.schedules e1 in
          let more = registered + amount_of a.schedules in
          let first =
            store-IsFunded now then registered paid more paid s k
              (record { schedules = a.schedules; last_claim_time = genesis }) h le timely
              (omega (arith, all_left)) in
          let e : more + registered_amount l ≡ registered + registered_amount (a ∷ l) =
            omega arith in
          subst (λ n. IsFunded then n (paid + 0) u) e
            (register_all-IsFunded then then more paid l _ u first (omega arith) r2)

  execute-IsFunded :
      (now registered paid : ℕ) (s u : Store) (env : Env) (info : MessageInfo) (msg : ExecuteMsg)
      (msgs : List Msg)
      → IsFunded now registered paid s
      → now ≤ env.block.block_time / 1_000_000_000
      → execute p s env info msg ≡ ok (u, msgs)
      → IsFunded
          (env.block.block_time / 1_000_000_000)
          (registered + registers msg)
          (paid + pays msgs)
          u
  unfolding execute register_vesting_accounts
  execute-IsFunded now registered paid s u env info ExecuteMsg.claim msgs h le run =
      claim-IsFunded now registered paid s u env info msgs h le run
  execute-IsFunded now registered paid s u env info
        (ExecuteMsg.update_config owner glow_token genesis_time) msgs h le run =
      with_ok (assert_owner_privilege p s info.sender) _ run λ owned e1 r1.
        update_config-IsFunded now registered paid s u (env.block.block_time / 1_000_000_000) owner
          glow_token genesis_time msgs h le r1
  execute-IsFunded now registered paid s u env info (ExecuteMsg.register_vesting_accounts l) msgs h
        le run =
      let then = env.block.block_time / 1_000_000_000 in
      with_ok (assert_owner_privilege p s info.sender) _ run λ owned e1 r1.
        with_ok (register_all p s l) _ r1 λ t e2 r2.
          subst
            (λ (a : Store × List Msg).
              IsFunded then (registered + registered_amount l) (paid + pays a.1) a.0)
            (ok-injective r2) (register_all-IsFunded now then registered paid l s t h le e2)

  Reach-IsFunded :
      (s t : Store) (now registered paid : ℕ)
      → IsFunded 0 0 0 s
      → Reach p s now registered paid t
      → IsFunded now registered paid t
  Reach-IsFunded s t _ _ _ h here = h
  Reach-IsFunded s _ _ _ _ h (next {now} {registered} {paid} {t} u env info msg msgs r le run) =
      execute-IsFunded now registered paid t u env info msg msgs
        (Reach-IsFunded s t now registered paid h r) le run

  instantiate-IsFunded :
      (msg : InstantiateMsg) (s : Store) → instantiate p msg ≡ ok s → IsFunded 0 0 0 s
  unfolding instantiate
  instantiate-IsFunded msg s run = with_ok (p.addr_canonicalize msg.owner) _ run λ owner e1 r1.
      with_ok (p.addr_canonicalize msg.glow_token) _ r1 λ token e2 r2.
        subst (IsFunded 0 0 0) (ok-injective r2)
          (record { timely = λ k i found. cc; covered = omega arith })

  -- From the instantiation of vesting on, after any sequence of calls that succeed, at times that
  -- do not decrease, the tokens that the calls have paid are at most the amounts of the schedules
  -- that the calls have registered.
  pub paid-registered :
      (msg : InstantiateMsg) (s t : Store) (now registered paid : ℕ)
      → instantiate p msg ≡ ok s
      → Reach p s now registered paid t
      → paid ≤ registered
  paid-registered msg s t now registered paid run r =
      let h = Reach-IsFunded s t now registered paid (instantiate-IsFunded msg s run) r in
      le_of_mul-le-mul_right {k = p.decimal_one} (omega (arith, h.covered)) p.decimal_one_pos
