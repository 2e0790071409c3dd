-- ===== src/Staking/Solvency.antt =====
-- What the staking contract owes and has paid, against what it has distributed.
pub mod Index
pub mod Calls
use glow_contracts.Base.{
  ℕ, ◌+◌, ◌*◌, ◌≤◌, ◌≡◌, ◌∙◌, refl, sym, ap, Bool, true, false, Option, none, some, List, arith,
  nat_eq, Addr, or_default, if◌then◌else◌, Bool-cases, inl, inr,
}
use glow_contracts.Dict.{
  Dict, lookup, insert, remove, lookup-insert, lookup-remove, total, total-insert, measured,
}
use glow_contracts.Dict.Distinct.{IsDistinct, insert-IsDistinct, remove-IsDistinct, total-remove}
use glow_contracts.Platform.{Platform}
use glow_contracts.Staking.Types.{Store, Config, State, StakerInfo}
use glow_contracts.Staking.Rewards.{
  read_staker_info, store_staker_info, remove_staker_info, no_staker,
}
use glow_contracts.Staking.Contract.{keep_staker}

abbrev pub bonds : Dict Addr StakerInfo → ℕ
bonds d = total (λ i. i.bond_amount) d

abbrev pub pending : Dict Addr StakerInfo → ℕ
pending d = total (λ i. i.pending_reward) d

-- What the stakers have been credited or do not take part in, in fractions.
abbrev pub credited : Dict Addr StakerInfo → ℕ
credited d = total (λ i. i.bond_amount * i.reward_index) d

-- The bonds add up to their total, no staker's index is ahead of the global one, and the rewards
-- that are pending, that have accrued since each staker's last call and that have been paid exceed
-- the amounts distributed by one unit for each call at most.
pub record IsSolvent (p : Platform) (given paid calls : ℕ) (s : Store) : Type 0 where
  pub distinct : IsDistinct s.stakers
  pub bonded : bonds s.stakers ≡ s.state.total_bond_amount
  pub behind :
      (a : Addr) (i : StakerInfo)
      → lookup a s.stakers ≡ some i
      → i.reward_index ≤ s.state.global_reward_index
  pub covered :
      pending s.stakers * p.decimal_one
        + s.state.global_reward_index * s.state.total_bond_amount
        + paid * p.decimal_one
      ≤ (given + calls) * p.decimal_one + credited s.stakers

-- The sums after one staker is stored or removed.
record IsChanged (d d' : Dict Addr StakerInfo) (i i' : StakerInfo) : Type 0 where
  distinct : IsDistinct d'
  bonded : bonds d' + i.bond_amount ≡ bonds d + i'.bond_amount
  pended : pending d' + i.pending_reward ≡ pending d + i'.pending_reward
  credit :
      credited d' + i.bond_amount * i.reward_index ≡ credited d + i'.bond_amount * i'.reward_index

measured_or :
    (f : StakerInfo → ℕ) (o : Option StakerInfo)
    → f no_staker ≡ 0
    → measured f o ≡ f (or_default no_staker o)
measured_or f none h = sym h
measured_or f (some i) h = refl

module _ (s : Store) (a : Addr) (i' : StakerInfo) (h : IsDistinct s.stakers) where
  stored-IsChanged :
      IsChanged s.stakers (store_staker_info s a i').stakers (read_staker_info s a) i'
  unfolding store_staker_info read_staker_info
  stored-IsChanged = record {
    distinct = insert-IsDistinct a i' s.stakers h;
    bonded = changed (λ i. i.bond_amount) refl;
    pended = changed (λ i. i.pending_reward) refl;
    credit = changed (λ i. i.bond_amount * i.reward_index) refl;
  }
    where
      changed :
          (f : StakerInfo → ℕ)
          → f no_staker ≡ 0
          → total f (insert a i' s.stakers) + f (or_default no_staker (lookup a s.stakers))
            ≡ total f s.stakers + f i'
      changed f nothing =
          omega (arith, total-insert f a i' s.stakers, measured_or f (lookup a s.stakers) nothing)

  removed-IsChanged :
      i'.bond_amount ≡ 0
      → i'.pending_reward ≡ 0
      → IsChanged s.stakers (remove_staker_info s a).stakers (read_staker_info s a) i'
  unfolding remove_staker_info read_staker_info
  removed-IsChanged no_bond no_pending = record {
    distinct = remove-IsDistinct a s.stakers h;
    bonded = rw no_bond (changed (λ i. i.bond_amount) refl);
    pended = rw no_pending (changed (λ i. i.pending_reward) refl);
    credit = omega (
      arith,
      changed (λ i. i.bond_amount * i.reward_index) refl,
      ap (λ n. n * i'.reward_index) no_bond,
    );
  }
    where
      changed :
          (f : StakerInfo → ℕ)
          → f no_staker ≡ 0
          → total f (remove a s.stakers) + f (or_default no_staker (lookup a s.stakers))
            ≡ total f s.stakers + 0
      changed f nothing =
          omega (arith, total-remove f a s.stakers h, measured_or f (lookup a s.stakers) nothing)

  kept-IsChanged :
      (gone : Bool)
      → (gone ≡ true → (i'.bond_amount ≡ 0) × (i'.pending_reward ≡ 0))
      → IsChanged s.stakers (keep_staker s a i' gone).stakers (read_staker_info s a) i'
  unfolding keep_staker
  kept-IsChanged true empty = removed-IsChanged (empty refl).0 (empty refl).1
  kept-IsChanged false empty = stored-IsChanged

  kept-behind :
      (gone : Bool) (g : ℕ)
      → ((b : Addr) (i : StakerInfo) → lookup b s.stakers ≡ some i → i.reward_index ≤ g)
      → i'.reward_index ≤ g
      → (b : Addr) (i : StakerInfo) → lookup b (keep_staker s a i' gone).stakers ≡ some i
      → i.reward_index ≤ g
  unfolding keep_staker store_staker_info remove_staker_info
  kept-behind true g old new b i found = ground (arith, old b i, lookup-remove b a s.stakers)
  kept-behind false g old new b i found = ground (arith, old b i, lookup-insert b a i' s.stakers)

-- The sums of `covered` after a call that takes a staker from `i` to `i2`, with what the call
-- distributes and pays.
covered_after :
    (one given paid calls d out g g' total total' pend pend' cred cred' b b' idx q q' : ℕ)
    → pend * one + g * total + paid * one ≤ (given + calls) * one + cred
    → g' * total ≤ g * total + d * one
    → (q' + out) * one + b * idx ≤ q * one + b * g' + one
    → total' + b ≡ total + b'
    → pend' + q ≡ pend + q'
    → cred' + b * idx ≡ cred + b' * g'
    → pend' * one + g' * total' + (paid + out) * one ≤ (given + d + (calls + 1)) * one + cred'
covered_after one given paid calls d out g g' total total' pend pend' cred cred' b b' idx q q'
      before grown earned bond pended credit =
    omega (arith, ap (λ n. n * g') bond, ap (λ n. n * one) pended)

-- A call that distributes, brings one staker up to date, changes its bond and pays it.
pub touch-IsSolvent :
    (p : Platform) (given paid calls d out : ℕ) (s : Store) (config : Config) (state : State)
    (a : Addr) (i' : StakerInfo) (gone : Bool)
    → IsSolvent p given paid calls s
    → s.state.global_reward_index ≤ state.global_reward_index
    → state.global_reward_index * s.state.total_bond_amount
      ≤ s.state.global_reward_index * s.state.total_bond_amount + d * p.decimal_one
    → i'.reward_index ≡ state.global_reward_index
    → (i'.pending_reward + out) * p.decimal_one
        + (read_staker_info s a).bond_amount * (read_staker_info s a).reward_index
      ≤ (read_staker_info s a).pending_reward * p.decimal_one
        + (read_staker_info s a).bond_amount * state.global_reward_index
        + p.decimal_one
    → state.total_bond_amount + (read_staker_info s a).bond_amount
      ≡ s.state.total_bond_amount + i'.bond_amount
    → (gone ≡ true → (i'.bond_amount ≡ 0) × (i'.pending_reward ≡ 0))
    → IsSolvent p
        (given + d)
        (paid + out)
        (calls + 1)
        (record (keep_staker s a i' gone) { config = config; state = state })
touch-IsSolvent p given paid calls d out s config state a i' gone h up grown same earned bond
      empty =
    let c = kept-IsChanged s a i' h.distinct gone empty in
    record {
      distinct = c.distinct;
      bonded = omega (arith, c.bonded, h.bonded, bond);
      behind =
          kept-behind s a i' h.distinct gone state.global_reward_index
            (λ b i found. omega (arith, h.behind b i found, up)) (omega (arith, same));
      covered =
          covered_after p.decimal_one given paid calls d out s.state.global_reward_index
            state.global_reward_index s.state.total_bond_amount state.total_bond_amount
            (pending s.stakers) _ (credited s.stakers) _ (read_staker_info s a).bond_amount
            i'.bond_amount (read_staker_info s a).reward_index (read_staker_info s a).pending_reward
            i'.pending_reward h.covered grown earned bond c.pended
            (c.credit ∙ ap (λ n. credited s.stakers + i'.bond_amount * n) same);
    }
