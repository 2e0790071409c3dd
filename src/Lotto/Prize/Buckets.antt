-- ===== src/Lotto/Prize/Buckets.antt =====
-- The prize buckets when a lottery closes.
use glow_contracts.Base.{
  ℕ, ◌+◌, ◌≤◌, ◌≡◌, List, [], ◌∷◌, ok, with_ok, arith, nat_beq, sum, ok-injective, subst,
  Bool-cases, inl, inr,
}
use glow_contracts.Platform.{Platform}
use glow_contracts.Lotto.Prize.{Closing, close_buckets}

-- From the buckets of the state and of the lottery, the reserve and the total before the loop:
-- nothing is created or lost, and the lottery's buckets grow by at most what is awarded.
abbrev pub IsConserved : List ℕ → List ℕ → ℕ → ℕ → Closing → Type 0
IsConserved bs ls reserve total r =
    (sum r.state_buckets + r.reserve + r.total_awarded ≡ sum bs + reserve + total)
    × (sum r.lottery_buckets + total ≤ sum ls + r.total_awarded)

module _ (p : Platform) where
  -- A close of the buckets that succeeds conserves the sum of the state's buckets, the reserve and
  -- the total awarded, and the lottery's buckets grow by at most what the total awarded grows by.
  pub close_buckets-sum :
      (fee : ℕ) (ranks bs ls gs cs : List ℕ) (reserve total : ℕ) (r : Closing)
      → close_buckets p fee ranks bs ls gs cs reserve total ≡ ok r
      → IsConserved bs ls reserve total r
  unfolding close_buckets
  close_buckets-sum fee [] bs ls gs cs reserve total r h = ground arith
  close_buckets-sum fee (n ∷ ns) [] ls gs cs reserve total r h = ground arith
  close_buckets-sum fee (n ∷ ns) (b ∷ bs) [] gs cs reserve total r h = ground arith
  close_buckets-sum fee (n ∷ ns) (b ∷ bs) (l ∷ ls) [] cs reserve total r h = ground arith
  close_buckets-sum fee (n ∷ ns) (b ∷ bs) (l ∷ ls) (g ∷ gs) [] reserve total r h = ground arith
  close_buckets-sum fee (n ∷ ns) (b ∷ bs) (l ∷ ls) (g ∷ gs) (c ∷ cs) reserve total r h =
      elim (Bool-cases (nat_beq n 0)) [
        | inl none_won ↦
            with_ok (close_buckets p fee ns bs ls gs cs reserve total) _ (rw none_won at h)
              λ x e1 h1.
                let ih = close_buckets-sum fee ns bs ls gs cs reserve total x e1 in
                subst (IsConserved (b ∷ bs) (l ∷ ls) reserve total) (ok-injective h1)
                  (omega (arith, ih.0), omega (arith, ih.1))
        | inr won ↦ with_ok (p.mul_dec b fee) _ (rw won at h) λ f e1 h1.
            with_ok (p.sub b f) _ h1 λ awarded e2 h2.
              with_ok (p.add reserve f) _ h2 λ reserve1 e3 h3.
                with_ok (p.add total awarded) _ h3 λ total1 e4 h4.
                  with_ok (close_buckets p fee ns bs ls gs cs reserve1 total1) _ h4 λ x e5 h5.
                    let ih = close_buckets-sum fee ns bs ls gs cs reserve1 total1 x e5 in
                    let kept = p.sub_lem b f awarded e2 in
                    let grown = p.add_lem reserve f reserve1 e3 in
                    let counted = p.add_lem total awarded total1 e4 in
                    subst (IsConserved (b ∷ bs) (l ∷ ls) reserve total) (ok-injective h5)
                      (omega (arith, ih.0, kept, grown, counted), omega (arith, ih.1, counted))
      ]
