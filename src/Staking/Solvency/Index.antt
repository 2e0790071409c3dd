-- ===== src/Staking/Solvency/Index.antt =====
-- What the updates of the index, of a staker and of a bond do to the sums.
use glow_contracts.Base.{
  ℕ, ◌+◌, ◌*◌, ◌≤◌, ◌≡◌, ◌∙◌, refl, sym, ap, subst, ok, arith, with_ok, ok-injective, true, false,
  nat_beq, Bool-cases, inl, inr,
}
use glow_contracts.Platform.{Platform}
use glow_contracts.Staking.Types.{Config, State, StakerInfo}
use glow_contracts.Staking.Rewards.{
  sum_slots, distributed_amount, compute_reward, compute_staker_reward, increase_bond_amount,
  decrease_bond_amount,
}

module _ (p : Platform) where
  -- An update of the index distributes an amount, which covers the index's growth over all bonds.
  pub record IsGrown (config : Config) (state state' : State) (t d : ℕ) : Type 0 where
    pub given : distributed_amount p config state t ≡ ok d
    pub up : state.global_reward_index ≤ state'.global_reward_index
    pub growth :
        state'.global_reward_index * state.total_bond_amount
        ≤ state.global_reward_index * state.total_bond_amount + d * p.decimal_one
    pub bonded : state'.total_bond_amount ≡ state.total_bond_amount

  idle-distributed_amount :
      (config : Config) (state : State) (t : ℕ)
      → nat_beq state.total_bond_amount 0 ≡ true
      → distributed_amount p config state t ≡ ok 0
  unfolding distributed_amount
  idle-distributed_amount config state t idle = rw idle refl

  busy-distributed_amount :
      (config : Config) (state : State) (t : ℕ)
      → nat_beq state.total_bond_amount 0 ≡ false
      → distributed_amount p config state t
        ≡ sum_slots p state.last_distributed t 0 config.distribution_schedule
  unfolding distributed_amount
  busy-distributed_amount config state t busy = rw busy refl

  pub compute_reward-IsGrown :
      (config : Config) (state state' : State) (t : ℕ)
      → compute_reward p config state t ≡ ok state'
      → (d : ℕ) × IsGrown config state state' t d
  unfolding compute_reward
  compute_reward-IsGrown config state state' t h =
      elim (Bool-cases (nat_beq state.total_bond_amount 0)) [
        | inl idle ↦
            subst (λ (u : State). (d : ℕ) × IsGrown config state u t d)
              (ok-injective (rw idle at h))
              (
                0,
                record {
                  given = idle-distributed_amount config state t idle;
                  up = omega arith;
                  growth = omega arith;
                  bonded = refl;
                },
              )
        | inr busy ↦
            with_ok (sum_slots p state.last_distributed t 0 config.distribution_schedule) _
              (rw busy at h)
              λ d e1 r1.
                with_ok (p.decimal_from_ratio d state.total_bond_amount) _ r1 λ growth e2 r2.
                  with_ok (p.decimal_add state.global_reward_index growth) _ r2 λ index e3 r3.
                    subst (λ (u : State). (d : ℕ) × IsGrown config state u t d) (ok-injective r3)
                      (
                        d,
                        record {
                          given = busy-distributed_amount config state t busy ∙ e1;
                          up =
                              omega (
                                arith,
                                p.decimal_add_lem state.global_reward_index growth index e3,
                              );
                          growth = omega (
                            arith,
                            p.decimal_from_ratio_lem d state.total_bond_amount growth e2,
                            ap (λ n. n * state.total_bond_amount)
                                (p.decimal_add_lem state.global_reward_index growth index e3),
                          );
                          bonded = refl;
                        },
                      )
      ]

  -- A staker's update credits the growth of the index on its bond, rounded up by less than one.
  pub compute_staker_reward_lem :
      (state : State) (i i' : StakerInfo)
      → compute_staker_reward p state i ≡ ok i'
      → (i'.reward_index ≡ state.global_reward_index)
        × ((i'.bond_amount ≡ i.bond_amount)
            × (i'.pending_reward * p.decimal_one + i.bond_amount * i.reward_index
                ≤ i.pending_reward * p.decimal_one
                  + i.bond_amount * state.global_reward_index
                  + p.decimal_one))
  unfolding compute_staker_reward
  compute_staker_reward_lem state i i' h =
      with_ok (p.mul_decimal i.bond_amount state.global_reward_index) _ h λ earned e1 r1.
        with_ok (p.mul_decimal i.bond_amount i.reward_index) _ r1 λ credited e2 r2.
          with_ok (p.sub128 earned credited) _ r2 λ reward e3 r3.
            with_ok (p.add128 i.pending_reward reward) _ r3 λ total e4 r4.
              subst
                (λ (j : StakerInfo).
                  (j.reward_index ≡ state.global_reward_index)
                  × ((j.bond_amount ≡ i.bond_amount)
                      × (j.pending_reward * p.decimal_one + i.bond_amount * i.reward_index
                          ≤ i.pending_reward * p.decimal_one
                            + i.bond_amount * state.global_reward_index
                            + p.decimal_one)))
                (ok-injective r4)
                (
                  refl,
                  (
                    refl,
                    omega (
                      arith,
                      p.mul_decimal_lem i.bond_amount state.global_reward_index earned e1,
                      p.mul_decimal_lem i.bond_amount i.reward_index credited e2,
                      ap (λ n. n * p.decimal_one) (p.sub128_lem earned credited reward e3),
                      ap (λ n. n * p.decimal_one) (p.add128_lem i.pending_reward reward total e4),
                    ),
                  ),
                )

  -- The bond that is taken up or given back.
  pub increase_lem :
      (state : State) (i : StakerInfo) (amount : ℕ) (after : State × StakerInfo)
      → increase_bond_amount p state i amount ≡ ok after
      → (after.0 ≡ record state { total_bond_amount = state.total_bond_amount + amount })
        × (after.1 ≡ record i { bond_amount = i.bond_amount + amount })
  unfolding increase_bond_amount
  increase_lem state i amount after h =
      with_ok (p.add128 state.total_bond_amount amount) _ h λ total e1 r1.
        with_ok (p.add128 i.bond_amount amount) _ r1 λ bond e2 r2.
          let e = ok-injective (sym r2) in
          (
            ap (λ (t : State × StakerInfo). t.0) e
                ∙ ap (λ n. record state { total_bond_amount = n }) (p.add128_lem _ amount total e1),
            ap (λ (t : State × StakerInfo). t.1) e
                ∙ ap (λ n. record i { bond_amount = n }) (p.add128_lem _ amount bond e2),
          )

  pub decrease_lem :
      (state : State) (i : StakerInfo) (amount : ℕ) (after : State × StakerInfo)
      → decrease_bond_amount p state i amount ≡ ok after
      → (after.0 ≡ record state { total_bond_amount = after.0.total_bond_amount })
        × ((after.1 ≡ record i { bond_amount = after.1.bond_amount })
            × ((after.0.total_bond_amount + amount ≡ state.total_bond_amount)
                × (after.1.bond_amount + amount ≡ i.bond_amount)))
  unfolding decrease_bond_amount
  decrease_lem state i amount after h =
      with_ok (p.sub128 state.total_bond_amount amount) _ h λ total e1 r1.
        with_ok (p.sub128 i.bond_amount amount) _ r1 λ bond e2 r2.
          subst
            (λ (t : State × StakerInfo).
              (t.0 ≡ record state { total_bond_amount = t.0.total_bond_amount })
              × ((t.1 ≡ record i { bond_amount = t.1.bond_amount })
                  × ((t.0.total_bond_amount + amount ≡ state.total_bond_amount)
                      × (t.1.bond_amount + amount ≡ i.bond_amount))))
            (ok-injective r2)
            (
              refl,
              (
                refl,
                (
                  p.sub128_lem state.total_bond_amount amount total e1,
                  p.sub128_lem i.bond_amount amount bond e2,
                ),
              ),
            )
