-- ===== src/Distributor/Rates.antt =====
-- What the distributor's configuration keeps, and the emission rates that it gives
-- (contracts/distributor/src/contract.rs).
use glow_contracts.Base.{
  ℕ, ◌+◌, ◌≤◌, ◌<◌, ◌≡◌, sym, ap, subst, ok, Option, some, none, List, with_ok, with_test,
  ok-injective, or_default, arith, not, nat_beq, ltb, length, MessageInfo, ltb_false→le,
}
use native.Mathlib.Nat.{mul-le-mul_left, le_of_mul-le-mul_right, lt_of_mul-lt-mul_right}
use glow_contracts.Platform.{Platform}
use glow_contracts.Distributor.{Config, InstantiateMsg, ConfigUpdate, ExecuteMsg, Msg}
use glow_contracts.Distributor.Contract.{
  instantiate, execute, update_config, spend, add_distributor, remove_distributor, check_owner,
  owner_after, increment_after, decrement_after, any_is, without, canonicalize_all, moved_rate,
  clamped_rate, query_glow_emission_rate,
}

module _ (p : Platform) where
  -- The states that sequences of calls lead to.
  pub data Reach (c : Config) : Config → Type 0 where
    here : Reach c c
    next :
        {d : Config} (e : Config) (info : MessageInfo) (msg : ExecuteMsg) (msgs : List Msg)
        → Reach c d
        → execute p d info msg ≡ ok (e, msgs)
        → Reach c e

  record IsSound (c : Config) : Type 0 where
    increment : p.one ≤ c.increment_multiplier
    decrement : c.decrement_multiplier ≤ p.one
    bounds : c.emission_floor ≤ c.emission_cap

  -- An emission rate lies in the range, and moves with the award: up to the target, down from it.
  pub record IsAdjusted (c : Config) (current_award target_award rate new_rate : ℕ) : Type 0 where
    pub floor : c.emission_floor ≤ new_rate
    pub cap : new_rate ≤ c.emission_cap
    pub up : current_award < target_award → rate ≤ c.emission_cap → rate ≤ new_rate
    pub down : target_award < current_award → c.emission_floor ≤ rate → new_rate ≤ rate
    pub kept :
        current_award ≡ target_award
        → c.emission_floor ≤ rate
        → rate ≤ c.emission_cap
        → new_rate ≡ rate

  instantiate-IsSound : (msg : InstantiateMsg) (c : Config) → instantiate p msg ≡ ok c → IsSound c
  unfolding instantiate
  instantiate-IsSound msg c run = with_ok (canonicalize_all p msg.whitelist) _ run λ w e1 r1.
      with_test (ltb msg.increment_multiplier p.one) _ _ r1 λ a r2.
        with_test (ltb p.one msg.decrement_multiplier) _ _ r2 λ b r3.
          with_test (ltb msg.emission_cap msg.emission_floor) _ _ r3 λ f r4.
            with_ok (p.addr_canonicalize msg.owner) _ r4 λ owner e5 r5.
              with_ok (p.addr_canonicalize msg.glow_token) _ r5 λ token e6 r6.
                subst IsSound (ok-injective r6) (record {
                  increment = ltb_false→le _ _ a;
                  decrement = ltb_false→le _ _ b;
                  bounds = ltb_false→le _ _ f;
                })

  increment_lem :
      (o : Option ℕ) (old n : ℕ) → increment_after p o old ≡ ok n → p.one ≤ old → p.one ≤ n
  unfolding increment_after
  increment_lem none old n h le = rw (sym (ok-injective h)) le
  increment_lem (some m) old n h le =
      with_test (ltb m p.one) _ _ h λ a r1. rw (sym (ok-injective r1)) (ltb_false→le _ _ a)

  decrement_lem :
      (o : Option ℕ) (old n : ℕ) → decrement_after p o old ≡ ok n → old ≤ p.one → n ≤ p.one
  unfolding decrement_after
  decrement_lem none old n h le = rw (sym (ok-injective h)) le
  decrement_lem (some m) old n h le =
      with_test (ltb p.one m) _ _ h λ a r1. rw (sym (ok-injective r1)) (ltb_false→le _ _ a)

  module _ (c d : Config) (info : MessageInfo) (msgs : List Msg) (s : IsSound c) where
    update_config-IsSound : (u : ConfigUpdate) → update_config p c info u ≡ ok (d, msgs) → IsSound d
    unfolding update_config
    update_config-IsSound u run = with_ok (check_owner p c info) _ run λ owned e1 r1.
        with_ok (owner_after p u.owner c.owner) _ r1 λ owner e2 r2.
          with_ok (increment_after p u.increment_multiplier c.increment_multiplier) _ r2 λ i e3 r3.
            with_ok (decrement_after p u.decrement_multiplier c.decrement_multiplier) _ r3
              λ j e4 r4.
                with_test
                  (ltb (or_default c.emission_cap u.emission_cap)
                    (or_default c.emission_floor u.emission_floor))
                  _ _ r4
                  λ f r5.
                    subst (λ (a : Config × List Msg). IsSound a.0) (ok-injective r5)
                      (record {
                        increment = increment_lem u.increment_multiplier _ i e3 s.increment;
                        decrement = decrement_lem u.decrement_multiplier _ j e4 s.decrement;
                        bounds = ltb_false→le _ _ f;
                      })

    execute-IsSound : (msg : ExecuteMsg) → execute p c info msg ≡ ok (d, msgs) → IsSound d
    unfolding execute spend add_distributor remove_distributor
    execute-IsSound (ExecuteMsg.update_config u) run = update_config-IsSound u run
    execute-IsSound (ExecuteMsg.spend recipient amount) run =
        with_ok (p.addr_canonicalize info.sender) _ run λ raw e1 r1.
          with_test (not (any_is raw c.whitelist)) _ _ r1 λ listed r2.
            with_test (ltb c.spend_limit amount) _ _ r2 λ limit r3.
              with_ok (p.addr_humanize c.glow_token) _ r3 λ token e4 r4.
                subst IsSound (ap (λ (a : Config × List Msg). a.0) (ok-injective r4)) s
    execute-IsSound (ExecuteMsg.add_distributor a) run =
        with_ok (check_owner p c info) _ run λ owned e1 r1.
          with_ok (p.addr_canonicalize a) _ r1 λ raw e2 r2.
            with_test (any_is raw c.whitelist) _ _ r2 λ absent r3.
              subst (λ (x : Config × List Msg). IsSound x.0) (ok-injective r3)
                (record { increment = s.increment; decrement = s.decrement; bounds = s.bounds })
    execute-IsSound (ExecuteMsg.remove_distributor a) run =
        with_ok (check_owner p c info) _ run λ owned e1 r1.
          with_ok (p.addr_canonicalize a) _ r1 λ raw e2 r2.
            with_test (nat_beq (length c.whitelist) (length (without raw c.whitelist))) _ _ r2
              λ shorter r3.
                subst (λ (x : Config × List Msg). IsSound x.0) (ok-injective r3)
                  (record { increment = s.increment; decrement = s.decrement; bounds = s.bounds })

  Reach-IsSound : (c d : Config) → IsSound c → Reach c d → IsSound d
  Reach-IsSound c _ s here = s
  Reach-IsSound c _ s (next {d} e info msg msgs r run) =
      execute-IsSound d e info msgs (Reach-IsSound c d s r) msg run

  grown : (rate b n : ℕ) → p.dec_mul rate b ≡ ok n → p.one ≤ b → rate ≤ n
  grown rate b n h le =
      let least = mul-le-mul_left rate le in
      let less =
        lt_of_mul-lt-mul_right p.one {m = rate} {n = n + 1}
          (omega (arith, least, p.dec_mul_lem rate b n h)) in
      omega (arith, less)

  shrunk : (rate b n : ℕ) → p.dec_mul rate b ≡ ok n → b ≤ p.one → n ≤ rate
  shrunk rate b n h le =
      let most = mul-le-mul_left rate le in
      le_of_mul-le-mul_right {k = p.one} (omega (arith, most, p.dec_mul_lem rate b n h)) p.one_pos

  moved_rate_lem :
      (c : Config) (current target rate n : ℕ)
      → IsSound c
      → moved_rate p c current target rate ≡ ok n
      → (current < target → rate ≤ n)
        × ((target < current → n ≤ rate) × (current ≡ target → n ≡ rate))
  unfolding moved_rate
  moved_rate_lem c current target rate n s h = ground (
    arith,
    grown rate c.increment_multiplier n,
    shrunk rate c.decrement_multiplier n,
    s.increment,
    s.decrement,
  )

  clamped_rate-IsAdjusted :
      (c : Config) (current target rate n : ℕ)
      → c.emission_floor ≤ c.emission_cap
      → (current < target → rate ≤ n)
        × ((target < current → n ≤ rate) × (current ≡ target → n ≡ rate))
      → IsAdjusted c current target rate (clamped_rate p c n)
  unfolding clamped_rate
  clamped_rate-IsAdjusted c current target rate n le (a, (b, e)) = record {
    floor = ground arith;
    cap = ground arith;
    up = λ h k. ground arith;
    down = λ h k. ground arith;
    kept = λ h k l. ground arith;
  }

  -- From the instantiation of the distributor on, after any sequence of calls that succeed, a
  -- query of the emission rate that is answered gives one from the floor to the cap. It is at
  -- least the current rate if the award is below the target and the current rate at most the cap,
  -- at most the current rate if the award is above the target and the current rate at least the
  -- floor, and the current rate if the award is at the target and the current rate in the range.
  pub query_glow_emission_rate-IsAdjusted :
      (msg : InstantiateMsg) (c d : Config) (current_award target_award rate new_rate : ℕ)
      → instantiate p msg ≡ ok c
      → Reach c d
      → query_glow_emission_rate p d current_award target_award rate ≡ ok new_rate
      → IsAdjusted d current_award target_award rate new_rate
  unfolding query_glow_emission_rate
  query_glow_emission_rate-IsAdjusted msg c d current target rate new_rate run r answer =
      let s = Reach-IsSound c d (instantiate-IsSound msg c run) r in
      with_ok (moved_rate p d current target rate) _ answer λ n e r2.
        subst (IsAdjusted d current target rate) (ok-injective r2) (
          clamped_rate-IsAdjusted d current target rate n s.bounds
            (moved_rate_lem d current target rate n s e))
