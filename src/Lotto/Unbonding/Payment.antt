-- ===== src/Lotto/Unbonding/Payment.antt =====
-- What a payment of unbonded withdrawals sends and what waits (claim_unbonded_withdrawals).
use glow_contracts.Base.{
  ℕ, ◌+◌, ◌≤◌, ◌<◌, ◌≡◌, refl, ap, sym, ◌∙◌, if_true, if_false, subst, none, some, List, [], ◌∷◌,
  map, ok, arith, Bool, true, false, with_ok, with_test, ok-injective, Block, Bool-cases, inl, inr,
  ltb, nat_beq, sum, lotto, insufficient_claimable_funds, insufficient_funds, ltb_false→le,
  if◌then◌else◌,
}
use glow_contracts.Platform.{Platform}
use glow_contracts.Tax.{deduct_tax}
use glow_contracts.Lotto.Types.{Store, Env, MessageInfo, Msg, Claim, DepositorInfo, Addr, bank_send}
use glow_contracts.Lotto.Storage.{
  read_depositor_info, store_depositor_info, read_depositor_data,
  vec_binary_tickets_to_vec_string_tickets,
}
use glow_contracts.Lotto.Storage.Laws.{AreHex, read-store_depositor_info}
use glow_contracts.Lotto.Deposit.{check_not_started}
use glow_contracts.Lotto.Unbonding.{
  partition_claims, claim_unbonded_withdrawals, within_cap, sum_buckets, execute_claim_unbonded,
}

-- The sum of the claims, and of those that a test picks.
abbrev pub claimed : (Claim → Bool) → List Claim → ℕ
claimed f [] = 0
claimed f (c ∷ cs) = (if f c then c.amount else 0) + claimed f cs

-- The claims that a test keeps back, in order.
abbrev pub waiting : (Claim → Bool) → List Claim → List Claim
waiting f [] = []
waiting f (c ∷ cs) = if f c then waiting f cs else c ∷ waiting f cs

module _ (p : Platform) (block : Block) where
  abbrev pub is_mature : Claim → Bool
  is_mature c = p.is_expired c.release_at block

  -- With no cap, a partition of claims that succeeds adds the amounts of the mature ones to the
  -- sum, and keeps the others in their order.
  pub partition_claims_lem :
      (cs : List Claim) (acc sum : ℕ) (rest : List Claim)
      → partition_claims p cs block none acc ≡ ok (sum, rest)
      → (sum ≡ acc + claimed is_mature cs) × (rest ≡ waiting is_mature cs)
  unfolding partition_claims
  partition_claims_lem [] acc sum rest h = ground arith
  partition_claims_lem (c ∷ cs) acc sum rest h = elim (Bool-cases (is_mature c)) [
    | inl due ↦ with_ok (p.to_uint128 c.amount) _ (rw due at h) λ x e1 h1.
        with_ok (p.add128 acc x) _ h1 λ y e2 h2.
          let ih = partition_claims_lem cs y sum rest h2 in
          (
            rw due (omega (arith, ih.0, p.to_uint128_lem c.amount x e1, p.add128_lem acc x y e2)),
            rw due ih.1,
          )
    | inr later ↦ with_ok (partition_claims p cs block none acc) _ (rw later at h) λ r e1 h1.
        let ih = partition_claims_lem cs acc r.0 r.1 e1 in
        subst
          (λ (t : ℕ × List Claim).
            (t.0 ≡ acc + claimed is_mature (c ∷ cs)) × (t.1 ≡ waiting is_mature (c ∷ cs)))
          (ok-injective h1) (rw later (omega (arith, ih.0)), rw later (ap (◌∷◌ c) ih.1))
  ]

  fits_le :
      (acc amount cap x y : ℕ)
      → within_cap p acc amount (some cap) ≡ ok true
      → p.to_uint128 amount ≡ ok x
      → p.add128 acc x ≡ ok y
      → y ≤ cap
  unfolding within_cap
  fits_le acc amount cap x y h e1 e2 = ground arith

  -- With a cap, a partition of claims that succeeds from a sum within the cap ends within the cap.
  pub partition_claims_capped :
      (cs : List Claim) (cap acc sum : ℕ) (rest : List Claim)
      → acc ≤ cap
      → partition_claims p cs block (some cap) acc ≡ ok (sum, rest)
      → sum ≤ cap
  unfolding partition_claims
  partition_claims_capped [] cap acc sum rest b h = ground arith
  partition_claims_capped (c ∷ cs) cap acc sum rest b h = elim (Bool-cases (is_mature c)) [
    | inl due ↦ with_ok (within_cap p acc c.amount (some cap)) _ (rw due at h) λ fits e0 h0.
        elim (Bool-cases fits) [
          | inl yes_fits ↦ with_ok (p.to_uint128 c.amount) _ (rw yes_fits at h0) λ x e1 h1.
              with_ok (p.add128 acc x) _ h1 λ y e2 h2.
                partition_claims_capped cs cap y sum rest
                  (fits_le acc c.amount cap x y (rw yes_fits at e0) e1 e2) h2
          | inr too_big ↦
              with_ok (partition_claims p cs block (some cap) acc) _ (rw too_big at h0) λ r e1 h1.
                subst (λ (t : ℕ × List Claim). t.0 ≤ cap) (ok-injective h1)
                  (partition_claims_capped cs cap acc r.0 r.1 b e1)
        ]
    | inr later ↦ with_ok (partition_claims p cs block (some cap) acc) _ (rw later at h) λ r e1 h1.
        subst (λ (t : ℕ × List Claim). t.0 ≤ cap) (ok-injective h1)
          (partition_claims_capped cs cap acc r.0 r.1 b e1)
  ]

module _ (p : Platform) where
  pub claim_unbonded_withdrawals_lem :
      (i i' : DepositorInfo) (block : Block) (n : ℕ)
      → claim_unbonded_withdrawals p i block none ≡ ok (i', n)
      → (i' ≡ record i { unbonding_info = waiting (is_mature p block) i.unbonding_info })
        × (n ≡ claimed (is_mature p block) i.unbonding_info)
  unfolding claim_unbonded_withdrawals
  claim_unbonded_withdrawals_lem i i' block n h =
      with_ok (partition_claims p i.unbonding_info block none 0) _ h λ y e2 e3.
        let split = partition_claims_lem p block i.unbonding_info 0 y.0 y.1 e2 in
        let same = ok-injective e3 in
        (
          sym (ap (λ (t : DepositorInfo × ℕ). t.0) same)
              ∙ ap (λ (l : List Claim). record i { unbonding_info = l }) split.1,
          omega (arith, ap (λ (t : DepositorInfo × ℕ). t.1) same, split.0),
        )

  sum_buckets_lem : (acc : ℕ) (bs : List ℕ) (r : ℕ) → sum_buckets p acc bs ≡ ok r → r ≡ acc + sum bs
  unfolding sum_buckets
  sum_buckets_lem acc [] r h = ground arith
  sum_buckets_lem acc (b ∷ bs) r h =
      with_ok (p.add acc b) _ h
        λ x e1 h1. omega (arith, sum_buckets_lem x bs r h1, p.add_lem acc b x e1)

  encoded-AreHex : (bs : List (List ℕ)) → AreHex (map p.hex_encode bs)
  encoded-AreHex [] = tt
  encoded-AreHex (b ∷ bs) = (p.hex_encode_chars b, encoded-AreHex bs)

  -- What the payment has done: the sender is sent the mature claims after tax, out of what the
  -- contract holds beyond the prize buckets, and keeps the claims that wait, its shares and its
  -- tickets.
  pub record Released (s s' : Store) (env : Env) (info : MessageInfo) (msgs : List Msg)
      : Type 0 where
    pub due : ℕ
    pub due_lem :
        due ≡ claimed (is_mature p env.block) (read_depositor_info p s info.sender).unbonding_info
    pub positive : 0 < due
    pub net : ℕ
    pub taxed : deduct_tax p s.config.stable_denom due ≡ ok net
    pub message :
        msgs
        ≡ bank_send info.sender (record { denom = s.config.stable_denom; coin_amount = net }) ∷ []
    pub balance : ℕ
    pub held : p.bank_balance env.contract s.config.stable_denom ≡ ok balance
    pub reserved : due + sum s.state.prize_buckets ≤ balance
    pub info_lem :
        read_depositor_info p s' info.sender ≡ record (read_depositor_info p s info.sender) {
          unbonding_info =
              waiting (is_mature p env.block) (read_depositor_info p s info.sender).unbonding_info;
        }
    pub others :
        (b : Addr)
        → nat_beq info.sender b ≡ false
        → read_depositor_info p s' b ≡ read_depositor_info p s b

  stored-AreHex : (s : Store) (a : Addr) → AreHex (read_depositor_info p s a).tickets
  unfolding read_depositor_info vec_binary_tickets_to_vec_string_tickets
  stored-AreHex s a = encoded-AreHex (read_depositor_data s a).vec_binary_tickets

  -- A payment of unbonded withdrawals that succeeds sends the sum of the mature claims after tax,
  -- which is positive and within the balance less the prize buckets, keeps the sender's other
  -- claims in their order with its shares, tickets and operator, and changes no other depositor.
  pub execute_claim_unbonded-Released :
      (s s' : Store) (env : Env) (info : MessageInfo) (msgs : List Msg)
      → execute_claim_unbonded p s env info ≡ ok (s', msgs)
      → Released s s' env info msgs
  unfolding execute_claim_unbonded claim_unbonded_withdrawals
  execute_claim_unbonded-Released s s' env info msgs h =
      let i = read_depositor_info p s info.sender in
      let denom = s.config.stable_denom in
      with_ok (claim_unbonded_withdrawals p i env.block none) _ h λ x e1 h1.
        with_ok (check_not_started s) _ h1 λ _ e4 h4.
          with_test (nat_beq x.1 0) (lotto insufficient_claimable_funds) _ h4 λ some_due h5.
            with_ok (deduct_tax p denom x.1) _ h5 λ net e6 h6.
              with_ok (p.bank_balance env.contract denom) _ h6 λ balance e7 h7.
                with_ok (sum_buckets p 0 s.state.prize_buckets) _ h7 λ reserved e8 h8.
                  with_ok (p.sub balance reserved) _ h8 λ spare e9 h9.
                    with_ok (p.to_uint128 spare) _ h9 λ available e10 h10.
                      with_test (ltb available x.1) (lotto (insufficient_funds x.1 spare)) _ h10
                        λ enough h11.
                          with_ok (store_depositor_info p s info.sender x.0 env.block.block_height)
                            _ h11
                            λ s1 e12 h12.
                              let (info_eq, due_eq) =
                                claim_unbonded_withdrawals_lem i x.0 env.block x.1 e1 in
                              let hex : AreHex x.0.tickets =
                                subst AreHex (sym (ap (λ (d : DepositorInfo). d.tickets) info_eq))
                                  (stored-AreHex s info.sender) in
                              let here : nat_beq info.sender info.sender ≡ true = ground arith in
                              let kept : (b : Addr)
                                  → read_depositor_info p s1 b ≡ (
                                      if nat_beq info.sender b
                                      then x.0
                                      else read_depositor_info p s b) =
                                λ b.
                                  read-store_depositor_info p s s1 info.sender b x.0
                                    env.block.block_height hex e12 in
                              subst (λ (r : Store × List Msg). Released s r.0 env info r.1)
                                (ok-injective h12)
                                (record {
                                  due = x.1;
                                  due_lem = due_eq;
                                  positive = ground arith;
                                  net = net;
                                  taxed = e6;
                                  message = refl;
                                  balance = balance;
                                  held = e7;
                                  reserved = omega (
                                    arith,
                                    sum_buckets_lem 0 s.state.prize_buckets reserved e8,
                                    p.sub_lem balance reserved spare e9,
                                    p.to_uint128_lem spare available e10,
                                    ltb_false→le available x.1 enough,
                                  );
                                  info_lem = kept info.sender ∙ if_true _ _ here ∙ info_eq;
                                  others = λ b other. kept b ∙ if_false _ _ other;
                                })
