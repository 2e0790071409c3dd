-- ===== src/Gov/Books/Stakes.antt =====
-- Staking and withdrawing keep the records consistent.
use glow_contracts.Base.{
  ℕ, ◌+◌, ◌≡◌, refl, sym, subst, ok, some, none, Option, List, [], arith, ◌⊎◌, ◌∙◌, inl, inr,
  nat_eq, Addr, MessageInfo, Option-cases, or_default, ok-injective, ap,
}
use glow_contracts.Dict.{lookup, insert, lookup-insert, total-insert, measured}
use glow_contracts.Platform.{Platform}
use glow_contracts.Gov.Types.{Store, TokenManager, Msg}
use glow_contracts.Gov.Staking.{
  stake_voting_tokens, withdraw_voting_tokens, no_tokens, compute_locked_balance, retain_locked,
}
use glow_contracts.Gov.Staking.Success.{
  stake_voting_tokens-Staked, withdraw_voting_tokens-Withdrawn,
}
use glow_contracts.Gov.Books.{IsConsistent}

share_of : (o : Option TokenManager) → measured (λ m. m.share) o ≡ (or_default no_tokens o).share
share_of none = refl
share_of (some m) = refl

-- Another share of a staker without locked balances, and the total changed as much.
pub put_stake-IsConsistent :
    (s : Store) (key : Addr) (m : TokenManager) (t : ℕ)
    → IsConsistent s
    → m.locked_balance ≡ []
    → t + (or_default no_tokens (lookup key s.bank)).share ≡ s.state.total_share + m.share
    → IsConsistent
        (record s { state = record s.state { total_share = t }; bank = insert key m s.bank })
put_stake-IsConsistent s key m t h free sum = record {
  shares = omega (
    arith,
    sum,
    h.shares,
    share_of (lookup key s.bank),
    total-insert (λ (m : TokenManager). m.share) key m s.bank,
  );
  deposits = h.deposits;
  ids = h.ids;
  tallies = h.tallies;
  indexed = h.indexed;
  unlocked = λ a n e. ground (arith, h.unlocked a n, lookup-insert a key m s.bank);
}

-- A staker whose list of locked balances is empty has nothing locked.
pub nothing-locked :
    (s : Store) (m : TokenManager) (voter : Addr)
    → m.locked_balance ≡ []
    → compute_locked_balance s m voter ≡ ok (s, (m, 0))
unfolding compute_locked_balance retain_locked
nothing-locked s m voter h =
    subst
      (λ l.
        compute_locked_balance s (record m { locked_balance = l }) voter
        ≡ ok (s, (record m { locked_balance = l }, 0)))
      (sym h) refl

module _ (p : Platform) (s s' : Store) (msgs : List Msg) (h : IsConsistent s) where
  -- Tokens that are staked leave the records consistent.
  pub stake_voting_tokens-IsConsistent :
      (sender : Addr) (amount : ℕ)
      → stake_voting_tokens p s sender amount ≡ ok (s', msgs)
      → IsConsistent s'
  stake_voting_tokens-IsConsistent sender amount run =
      let c = stake_voting_tokens-Staked p s s' msgs sender amount run in
      subst IsConsistent (sym c.after) (
        put_stake-IsConsistent s c.key _ _ h (free c.key (Option-cases (lookup c.key s.bank)))
          (omega arith))
    where
      free :
          (key : Addr)
          → ((lookup key s.bank ≡ none) ⊎ ((m : TokenManager) × (lookup key s.bank ≡ some m)))
          → (or_default no_tokens (lookup key s.bank)).locked_balance ≡ []
      free key (inl nothing) = rw nothing refl
      free key (inr (m, found)) = rw found (h.unlocked key m found)

  -- Tokens that are withdrawn leave the records consistent.
  pub withdraw_voting_tokens-IsConsistent :
      (info : MessageInfo) (amount : Option ℕ)
      → withdraw_voting_tokens p s info amount ≡ ok (s', msgs)
      → IsConsistent s'
  withdraw_voting_tokens-IsConsistent info amount run =
      let c = withdraw_voting_tokens-Withdrawn p s s' msgs info amount run in
      let same = ok-injective (
        sym (nothing-locked s c.manager c.key (h.unlocked c.key c.manager c.found))
        ∙ c.locked_lem) in
      subst IsConsistent (sym c.after) (
        subst
          (λ (t : Store × (TokenManager × ℕ)). IsConsistent (record t.0 {
            state = record s.state { total_share = c.total };
            bank = insert c.key (record t.1.0 { share = c.share }) t.0.bank;
          }))
          same
          (put_stake-IsConsistent s c.key (record c.manager { share = c.share }) c.total h
            (h.unlocked c.key c.manager c.found)
            (rw c.found (
              omega (
                arith,
                c.share_lem,
                c.total_lem,
                ap (λ (t : Store × (TokenManager × ℕ)). t.1.0.share) same,
              )))))
