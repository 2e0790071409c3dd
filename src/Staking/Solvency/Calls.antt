-- ===== src/Staking/Solvency/Calls.antt =====
-- The calls of the staking contract keep it solvent.
use glow_contracts.Base.{
  ℕ, ◌+◌, ◌*◌, ◌≡◌, ◌∙◌, refl, sym, ap, subst, ok, Option, List, [], ◌∷◌, arith, with_ok, with_test,
  ok-injective, Addr, Env, MessageInfo, Bool, true, false, ◌&&◌, not, nat_beq, ltb,
}
use glow_contracts.Platform.{Platform}
use glow_contracts.Staking.Types.{Store, Config, State, StakerInfo, Schedule, Msg, transfer}
use glow_contracts.Staking.Rewards.{
  read_staker_info, distributed_amount, compute_reward, compute_staker_reward, increase_bond_amount,
  decrease_bond_amount,
}
use glow_contracts.Staking.Schedules.{settle, started}
use glow_contracts.Staking.Contract.{
  keep_staker, bond, unbond, withdraw, update_config, migrate_staking, owner_after, schedule_after,
  total_distribution_amount,
}
use glow_contracts.Staking.Solvency.Index.{
  compute_reward-IsGrown, compute_staker_reward_lem, increase_lem, decrease_lem,
}
use glow_contracts.Staking.Solvency.{IsSolvent, touch-IsSolvent}

module _ (p : Platform) where
  module _ (given paid calls : ℕ) (s s' : Store) (env : Env) (msgs : List Msg)
      (h : IsSolvent p given paid calls s) where
    -- A call at a time, and the amount that it distributes.
    abbrev pub IsCounted : (d out : ℕ) → Type 0
    IsCounted d out =
        (distributed_amount p s.config s.state (p.seconds env.block.block_time) ≡ ok d)
        × IsSolvent p (given + d) (paid + out) (calls + 1) s'

    -- A call that updates the index and a staker, and then changes its bond or pays it.
    call-IsCounted :
        (config : Config) (state1 state2 : State) (key : Addr) (info1 info2 : StakerInfo)
        (gone : Bool) (out : ℕ)
        → compute_reward p s.config s.state (p.seconds env.block.block_time) ≡ ok state1
        → compute_staker_reward p state1 (read_staker_info s key) ≡ ok info1
        → state2.global_reward_index ≡ state1.global_reward_index
        → info2.reward_index ≡ info1.reward_index
        → info2.pending_reward + out ≡ info1.pending_reward
        → state2.total_bond_amount + info1.bond_amount
          ≡ state1.total_bond_amount + info2.bond_amount
        → (gone ≡ true → (info2.bond_amount ≡ 0) × (info2.pending_reward ≡ 0))
        → record (keep_staker s key info2 gone) { config = config; state = state2 } ≡ s'
        → (d : ℕ) × IsCounted d out
    call-IsCounted config state1 state2 key info1 info2 gone out e2 e3 index index' paid_out bonds
          empty after =
        let (d, g) = compute_reward-IsGrown p s.config s.state state1 _ e2 in
        let (same, (kept, earned)) =
          compute_staker_reward_lem p state1 (read_staker_info s key) info1 e3 in
        (
          d,
          (
            g.given,
            subst (IsSolvent p (given + d) (paid + out) (calls + 1)) after (
                touch-IsSolvent p given paid calls d out s config state2 key info2 gone h
                  (omega (arith, g.up, index)) (rw index g.growth) (index' ∙ (same ∙ sym index))
                  (rw paid_out (rw index earned)) (omega (arith, g.bonded, bonds, kept)) empty),
          ),
        )

    pub bond-IsCounted :
        (sender : Addr) (amount : ℕ)
        → bond p s env sender amount ≡ ok (s', msgs)
        → (d : ℕ) × IsCounted d 0
    unfolding bond keep_staker
    bond-IsCounted sender amount run = with_ok (p.addr_canonicalize sender) _ run λ key e1 r1.
        with_ok (compute_reward p s.config s.state (p.seconds env.block.block_time)) _ r1
          λ state1 e2 r2.
            with_ok (compute_staker_reward p state1 (read_staker_info s key)) _ r2 λ info1 e3 r3.
              with_ok (increase_bond_amount p state1 info1 amount) _ r3 λ after e4 r4.
                let (state2_lem, info2_lem) = increase_lem p state1 info1 amount after e4 in
                call-IsCounted _ state1 after.0 key info1 after.1 false 0 e2 e3
                  (ap (λ (t : State). t.global_reward_index) state2_lem)
                  (ap (λ (t : StakerInfo). t.reward_index) info2_lem)
                  (omega (arith, ap (λ (t : StakerInfo). t.pending_reward) info2_lem))
                  (omega (
                    arith,
                    ap (λ (t : State). t.total_bond_amount) state2_lem,
                    ap (λ (t : StakerInfo). t.bond_amount) info2_lem,
                  ))
                  (λ e. cc) (ap (λ (t : Store × List Msg). t.0) (ok-injective r4))

    pub unbond-IsCounted :
        (info : MessageInfo) (amount : ℕ)
        → unbond p s env info amount ≡ ok (s', msgs)
        → (d : ℕ) × IsCounted d 0
    unfolding unbond
    unbond-IsCounted info amount run = with_ok (p.addr_canonicalize info.sender) _ run λ key e1 r1.
        with_test (ltb (read_staker_info s key).bond_amount amount) _ _ r1 λ enough r2.
          with_ok (compute_reward p s.config s.state (p.seconds env.block.block_time)) _ r2
            λ state1 e2 r3.
              with_ok (compute_staker_reward p state1 (read_staker_info s key)) _ r3 λ info1 e3 r4.
                with_ok (decrease_bond_amount p state1 info1 amount) _ r4 λ after e4 r5.
                  with_ok (p.addr_humanize s.config.staking_token) _ r5 λ token e5 r6.
                    let (state2_lem, (info2_lem, (total_lem, bond_lem))) =
                      decrease_lem p state1 info1 amount after e4 in
                    call-IsCounted _ state1 after.0 key info1 after.1 _ 0 e2 e3
                      (ap (λ (t : State). t.global_reward_index) state2_lem)
                      (ap (λ (t : StakerInfo). t.reward_index) info2_lem)
                      (omega (arith, ap (λ (t : StakerInfo). t.pending_reward) info2_lem))
                      (omega (arith, total_lem, bond_lem)) (both after.1)
                      (ap (λ (t : Store × List Msg). t.0) (ok-injective r6))
      where
        both :
            (i : StakerInfo)
            → (nat_beq i.pending_reward 0 && nat_beq i.bond_amount 0) ≡ true
            → (i.bond_amount ≡ 0) × (i.pending_reward ≡ 0)
        both i e = ground arith

    pub withdraw-IsCounted :
        (info : MessageInfo)
        → withdraw p s env info ≡ ok (s', msgs)
        → (d : ℕ) × ((out : ℕ) × ((token : Addr) × ((msgs ≡ transfer token info.sender out ∷ [])
                × IsCounted d out)))
    unfolding withdraw
    withdraw-IsCounted info run = with_ok (p.addr_canonicalize info.sender) _ run λ key e1 r1.
        with_ok (compute_reward p s.config s.state (p.seconds env.block.block_time)) _ r1
          λ state1 e2 r2.
            with_ok (compute_staker_reward p state1 (read_staker_info s key)) _ r2 λ info1 e3 r3.
              with_ok (p.addr_humanize s.config.glow_token) _ r3 λ token e4 r4.
                let (d, counted) =
                  call-IsCounted _ state1 state1 key info1 (record info1 { pending_reward = 0 }) _
                    info1.pending_reward e2 e3 refl refl (omega arith) refl
                    (none_left info1.bond_amount)
                    (ap (λ (t : Store × List Msg). t.0) (ok-injective r4)) in
                (
                  d,
                  (
                    info1.pending_reward,
                    (token, (ap (λ (t : Store × List Msg). t.1) (ok-injective (sym r4)), counted)),
                  ),
                )
      where
        none_left : (n : ℕ) → nat_beq n 0 ≡ true → (n ≡ 0) × (◌≡◌ {A = ℕ} 0 0)
        none_left n e = ground arith

    -- The owner's calls leave the stakers as they are.
    pub update_config-IsCounted :
        (info : MessageInfo) (owner : Option Addr) (schedule : Option (List Schedule))
        → update_config p s info owner schedule ≡ ok (s', msgs)
        → IsSolvent p given paid calls s'
    unfolding update_config
    update_config-IsCounted info owner schedule run =
        with_ok (p.addr_canonicalize info.sender) _ run λ sender e1 r1.
          with_test (not (nat_beq sender s.config.owner)) _ _ r1 λ owned r2.
            with_ok (owner_after p owner s.config.owner) _ r2 λ owner1 e3 r3.
              with_ok (schedule_after p s.config s.state schedule) _ r3 λ schedule1 e4 r4.
                subst (IsSolvent p given paid calls)
                  (ap (λ (t : Store × List Msg). t.0) (ok-injective r4))
                  (record {
                    distinct = h.distinct;
                    bonded = h.bonded;
                    behind = h.behind;
                    covered = h.covered;
                  })

    pub migrate_staking-IsCounted :
        (info : MessageInfo) (to : Addr)
        → migrate_staking p s env info to ≡ ok (s', msgs)
        → (d : ℕ) × IsCounted d 0
    unfolding migrate_staking
    migrate_staking-IsCounted info to run =
        with_ok (p.addr_humanize s.config.glow_token) _ run λ glow e1 r1.
          with_ok (p.addr_canonicalize info.sender) _ r1 λ sender e2 r2.
            with_test (not (nat_beq s.config.owner sender)) _ _ r2 λ owned r3.
              with_ok (compute_reward p s.config s.state (p.seconds env.block.block_time)) _ r3
                λ state1 e4 r4.
                  with_ok
                    (settle p (p.seconds env.block.block_time) 0
                      (started p (p.seconds env.block.block_time) s.config.distribution_schedule))
                    _ r4
                    λ settled e5 r5.
                      with_ok (p.sub128 total_distribution_amount settled.1) _ r5 λ remaining e6 r6.
                        let (d, g) = compute_reward-IsGrown p s.config s.state state1 _ e4 in
                        (
                          d,
                          (
                            g.given,
                            subst (IsSolvent p (given + d) (paid + 0) (calls + 1))
                                (ap (λ (t : Store × List Msg). t.0) (ok-injective r6))
                                (record {
                                  distinct = h.distinct;
                                  bonded = h.bonded ∙ sym g.bonded;
                                  behind = λ a i found. omega (arith, h.behind a i found, g.up);
                                  covered = omega (
                                    arith,
                                    h.covered,
                                    g.growth,
                                    ap (λ n. state1.global_reward_index * n) g.bonded,
                                  );
                                }),
                          ),
                        )
