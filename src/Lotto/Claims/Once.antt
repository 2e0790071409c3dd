-- ===== src/Lotto/Claims/Once.antt =====
-- The claim of one lottery (execute_claim_lottery of contracts/lotto/src/contract.rs).
use glow_contracts.Base.{
  ℕ, ◌≡◌, sym, ap, none, some, Option-cases, inl, inr, ◌⊎◌, ok, with_ok, with_test, true, false,
  not, pair_eq, ok-injective, lotto, invalid_claim_lottery_not_awarded,
  invalid_claim_prize_already_claimed,
}
use glow_contracts.Dict.{lookup, insert}
use glow_contracts.Platform.{Platform}
use glow_contracts.Lotto.Types.{Store, Addr, PrizeInfo}
use glow_contracts.Lotto.Storage.{read_lottery_info, read_depositor_stats_at_height}
use glow_contracts.Lotto.Claims.{claim_one, calculate_winner_prize}

module _ (p : Platform) where
  -- What a claim of one lottery has done: nothing where there is no prize, or it paid a prize that was not claimed
  -- and marked it.
  abbrev pub Claimed : Addr → ℕ → Store → Store → ℕ → ℕ → Type 0
  Claimed a id s s' ust ust' =
      ((lookup (id, a) s.prizes ≡ none) × (s' ≡ s) × (ust' ≡ ust))
      ⊎ ((x : PrizeInfo) × (lookup (id, a) s.prizes ≡ some x)
          × (x.claimed ≡ false)
          × (s' ≡ record s { prizes = insert (id, a) (record x { claimed = true }) s.prizes }))

  pub claim_one-Claimed :
      (a : Addr) (id : ℕ) (s s' : Store) (ust glow ust' glow' : ℕ)
      → claim_one p a id s ust glow ≡ ok (s', (ust', glow'))
      → Claimed a id s s' ust ust'
  unfolding claim_one
  claim_one-Claimed a id s s' ust glow ust' glow' h =
      let lottery = read_lottery_info s id in
      with_test (not lottery.awarded) (lotto (invalid_claim_lottery_not_awarded id)) _ h
        λ awarded h1. elim (Option-cases (lookup (id, a) s.prizes)) [
          | inl nothing ↦
              let same = ok-injective (rw nothing at h1) in
              inl (
                nothing,
                sym (ap (λ (t : Store × (ℕ × ℕ)). t.0) same),
                sym (ap (λ (t : Store × (ℕ × ℕ)). t.1.0) same),
              )
          | inr (x, found) ↦
              with_test x.claimed (lotto (invalid_claim_prize_already_claimed id)) _
                (rw found at h1)
                λ unclaimed h2.
                  with_ok
                    (calculate_winner_prize p s.config x lottery
                      (read_depositor_stats_at_height s a lottery.block_height) a)
                    _ h2
                    λ won e3 h3. with_ok (p.add128 ust won.0) _ h3 λ ust1 e4 h4.
                      with_ok (p.add128 glow won.1) _ h4 λ glow1 e5 h5. inr (
                        x,
                        found,
                        unclaimed,
                        sym (ap (λ (t : Store × (ℕ × ℕ)). t.0) (ok-injective h5)),
                      )
        ]
