-- ===== src/Lotto/Operators/Shares.antt =====
-- The operators' shares against the pool's sum of them.
use glow_contracts.Base.{
  ℕ, ◌+◌, ◌≡◌, refl, Option, none, some, ok, arith, >>=-eq-ok, fail_if->>-eq-ok, nat_beq, nat_eq,
  true, false, Bool-cases, inl, inr, Bool, subst, ok-injective, if◌then◌else◌,
}
use glow_contracts.Dict.{total, total-insert, lookup-insert}
use glow_contracts.Platform.{Platform}
use glow_contracts.Lotto.Types.{Store, State, Pool, DepositorInfo, OperatorInfo, Addr}
use glow_contracts.Lotto.Storage.{operator_registered, read_operator_info, store_operator_info}
use glow_contracts.Lotto.Rewards.{compute_operator_reward}
use glow_contracts.Lotto.Operators.{
  grow_operator, assign_operator, handle_depositor_operator_updates,
}

-- The sum of the shares of all operators.
abbrev pub operator_shares : Store → ℕ
operator_shares s = total (λ o. o.shares) s.operators

-- The shares that come under an operator without having been counted in the pool: those that
-- the depositor held before, if this is when an operator is assigned.
abbrev pub uncounted : Bool → ℕ → Option Addr → ℕ
uncounted true shares new = 0
uncounted false shares none = 0
uncounted false shares (some a) = shares

-- The shares that are counted in the pool: the minted ones, if the depositor has an operator
-- afterwards.
abbrev pub joined : Bool → Option Addr → ℕ → ℕ
joined true new n = n
joined false none n = 0
joined false (some a) n = n

gap_assigned :
    (after before held n shares pool pool' : ℕ)
    → after ≡ before + shares
    → shares ≡ held + n
    → pool' ≡ pool + n
    → after + pool ≡ before + pool' + held
gap_assigned after before held n shares pool pool' h k e = omega arith

gap_registered :
    (after before n pool pool' : ℕ)
    → after ≡ before + n
    → pool' ≡ pool + n
    → after + pool ≡ before + pool' + 0
gap_registered after before n pool pool' h e = omega arith

module _ (p : Platform) where
  pub compute_operator_reward-shares :
      (state : State) (o o' : OperatorInfo)
      → compute_operator_reward p state o ≡ ok o'
      → o'.shares ≡ o.shares
  unfolding compute_operator_reward
  compute_operator_reward-shares state o o' h = ground arith

  pub store_operator_info-shares :
      (s : Store) (a : Addr) (o : OperatorInfo)
      → operator_shares (store_operator_info s a o) + (read_operator_info s a).shares
        ≡ operator_shares s + o.shares
  unfolding store_operator_info read_operator_info
  store_operator_info-shares s a o =
      ground (arith, total-insert (λ (x : OperatorInfo). x.shares) a o s.operators)

  -- The sum of the operators' shares grows by what one operator gains.
  pub grow_operator-shares :
      (s s' : Store) (state : State) (a : Addr) (n : ℕ)
      → grow_operator p s state a n ≡ ok s'
      → operator_shares s' ≡ operator_shares s + n
  unfolding grow_operator
  grow_operator-shares s s' state a n h =
      let (o, e, h1) = >>=-eq-ok (compute_operator_reward p state (read_operator_info s a)) _ h in
      let (t, e1, h2) = >>=-eq-ok (p.add o.shares n) _ h1 in
      ground (
        arith,
        compute_operator_reward-shares state (read_operator_info s a) o e,
        p.add_lem o.shares n t e1,
        store_operator_info-shares s a (record o { shares = t }),
      )

  -- One operator gains the shares, and no other gains any.
  grow_operator-gained :
      (s s' : Store) (state : State) (a b : Addr) (n : ℕ)
      → grow_operator p s state a n ≡ ok s'
      → (read_operator_info s' b).shares
        ≡ (read_operator_info s b).shares + (if nat_beq a b then n else 0)
  unfolding grow_operator read_operator_info store_operator_info
  grow_operator-gained s s' state a b n h =
      let (o, e, h1) = >>=-eq-ok (compute_operator_reward p state (read_operator_info s a)) _ h in
      let (t, e1, h2) = >>=-eq-ok (p.add o.shares n) _ h1 in
      ground (
        arith,
        compute_operator_reward-shares state (read_operator_info s a) o e,
        p.add_lem o.shares n t e1,
        lookup-insert b a (record o { shares = t }) s.operators,
      )

  grow_operator-frame :
      (s s' : Store) (state : State) (a : Addr) (n : ℕ)
      → grow_operator p s state a n ≡ ok s'
      → s' ≡ record s { operators = s'.operators }
  unfolding grow_operator store_operator_info
  grow_operator-frame s s' state a n h = ground arith

  -- What an update has done: `n` shares join the pool's sum if the depositor has an operator
  -- afterwards, and that operator's shares grow by them and by what is not counted.
  pub record Updated (s s' : Store) (pool pool' : Pool) (i i' : DepositorInfo) (n : ℕ)
      (new : Option Addr) : Type 0 where
    pub info : i' ≡ record i { operator_addr = i'.operator_addr }
    pub kept : operator_registered i ≡ true → i'.operator_addr ≡ i.operator_addr
    pub unasked : new ≡ none → i'.operator_addr ≡ i.operator_addr
    pub frame : s' ≡ record s { operators = s'.operators }
    pub pool_lem : pool' ≡ record pool { total_operator_shares = pool'.total_operator_shares }
    pub gap :
        operator_shares s' + pool.total_operator_shares
        ≡ operator_shares s
          + pool'.total_operator_shares
          + uncounted (operator_registered i) i.shares new
    pub counted :
        pool'.total_operator_shares
        ≡ pool.total_operator_shares + joined (operator_registered i) new n
    pub chosen :
        (b : Addr)
        → operator_registered i ≡ false
        → new ≡ some b
        → p.addr_validate b ≡ ok i'.operator_addr
    pub gained :
        (a : Addr)
        → (read_operator_info s' a).shares
          ≡ (read_operator_info s a).shares
            + (if nat_beq i'.operator_addr a
                then joined (operator_registered i) new n
                  + uncounted (operator_registered i) i.shares new
                else 0)

  module _ (s s' : Store) (state : State) (pool pool' : Pool) (a : Addr) (i i' : DepositorInfo)
      (n : ℕ) where
    assign_operator-Updated :
        (new : Option Addr)
        → operator_registered i ≡ false
        → assign_operator p s state pool a i n new ≡ ok (s', (pool', i'))
        → Updated s s' pool pool' i i' n new
    unfolding assign_operator
    assign_operator-Updated none reg h =
        subst (λ (t : Store × (Pool × DepositorInfo)). Updated s t.0 pool t.1.0 i t.1.1 n none)
          (ok-injective h)
          (record {
            info = refl;
            kept = λ r. refl;
            unasked = λ e. refl;
            frame = refl;
            pool_lem = refl;
            gap = rw reg (omega arith);
            counted = rw reg (omega arith);
            chosen = λ c r e. cc;
            gained = λ c. rw reg (ground arith);
          })
    assign_operator-Updated (some b) reg h =
        let (o, e1, h1) = >>=-eq-ok (p.addr_validate b) _ h in
        let (other, h2) = fail_if->>-eq-ok (nat_beq o a) _ _ h1 in
        let (shares, e3, h3) = >>=-eq-ok (p.add i.shares n) _ h2 in
        let (s1, e4, h4) = >>=-eq-ok (grow_operator p s state o shares) _ h3 in
        let (t, e5, h5) = >>=-eq-ok (p.add pool.total_operator_shares n) _ h4 in
        subst (λ (t : Store × (Pool × DepositorInfo)). Updated s t.0 pool t.1.0 i t.1.1 n (some b))
          (ok-injective h5)
          (record {
            info = refl;
            kept = λ r. cc;
            unasked = λ e. cc;
            frame = grow_operator-frame s s1 state o shares e4;
            pool_lem = refl;
            gap = rw reg (
                gap_assigned _ _ _ n _ pool.total_operator_shares _
                  (grow_operator-shares s s1 state o shares e4) (p.add_lem i.shares n shares e3)
                  (p.add_lem pool.total_operator_shares n t e5));
            counted = rw reg (p.add_lem pool.total_operator_shares n t e5);
            chosen = λ c r e. cc;
            gained = λ c. rw reg ground (
              arith,
              grow_operator-gained s s1 state o c shares e4,
              p.add_lem i.shares n shares e3,
            );
          })

    -- An update of operators by a number of minted shares that succeeds changes only the
    -- operators, their sum in the pool and the depositor's operator. An operator that is
    -- registered is kept, and so is none if none is asked for; otherwise the validated one that is
    -- asked for is assigned. The pool's sum gains the minted shares if the depositor then has an
    -- operator and nothing otherwise, and that operator gains the same and, if it is assigned now,
    -- the shares that the depositor held before; no other operator's shares change.
    pub handle_depositor_operator_updates-Updated :
        (new : Option Addr)
        → handle_depositor_operator_updates p s state pool a i n new ≡ ok (s', (pool', i'))
        → Updated s s' pool pool' i i' n new
    unfolding handle_depositor_operator_updates
    handle_depositor_operator_updates-Updated new h = elim (Bool-cases (operator_registered i)) [
      | inl reg ↦
          let (s1, e1, h1) =
            >>=-eq-ok (grow_operator p s state i.operator_addr n) _ (rw reg at h) in
          let (t, e2, h2) = >>=-eq-ok (p.add pool.total_operator_shares n) _ h1 in
          subst (λ (t : Store × (Pool × DepositorInfo)). Updated s t.0 pool t.1.0 i t.1.1 n new)
            (ok-injective h2)
            (record {
              info = refl;
              kept = λ r. refl;
              unasked = λ e. refl;
              frame = grow_operator-frame s s1 state i.operator_addr n e1;
              pool_lem = refl;
              gap = rw reg (
                  gap_registered _ _ n pool.total_operator_shares _
                    (grow_operator-shares s s1 state i.operator_addr n e1)
                    (p.add_lem pool.total_operator_shares n t e2));
              counted = rw reg (p.add_lem pool.total_operator_shares n t e2);
              chosen = λ c r e. cc;
              gained = λ c.
                  rw reg ground (arith, grow_operator-gained s s1 state i.operator_addr c n e1);
            })
      | inr unreg ↦ assign_operator-Updated new unreg (rw unreg at h)
    ]
