-- ===== src/Dict/Distinct.antt =====
-- Maps in which no key stands twice, and the removal of an entry.
use glow_contracts.Base.{
  ℕ, ◌+◌, ◌≡◌, refl, sym, false, Bool-cases, inl, inr, none, [], ◌∷◌, arith, Eq, ◌==◌,
}
use glow_contracts.Dict.{
  Dict, lookup, insert, remove, total, measured, lookup-insert, lookup-remove,
}

apart : {K : Type 0} ⦃e : Eq K⦄ (k j : K) → (j == k) ≡ false → (k == j) ≡ false
apart ⦃e⦄ k j h = ground (arith, e.is_equality j k, e.is_equality k j)

module _ {K V : Type 0} ⦃e : Eq K⦄ where
  abbrev pub IsDistinct : Dict K V → Type 0
  IsDistinct [] = Unit {0}
  IsDistinct ((k, v) ∷ d) = (lookup k d ≡ none) × IsDistinct d

  pub insert-IsDistinct : (k : K) (v : V) (d : Dict K V) → IsDistinct d → IsDistinct (insert k v d)
  insert-IsDistinct k v [] h = (refl, tt)
  insert-IsDistinct k v ((j, u) ∷ d) h = elim (Bool-cases (j == k)) [
    | inl same ↦ rw same (rw (sym ((e.is_equality j k).0 same)) (h.0, h.1))
    | inr other ↦
        rw other
          (rw (lookup-insert j k v d) (rw (apart k j other) h.0), insert-IsDistinct k v d h.1)
  ]

  pub remove-IsDistinct : (k : K) (d : Dict K V) → IsDistinct d → IsDistinct (remove k d)
  remove-IsDistinct k [] h = tt
  remove-IsDistinct k ((j, u) ∷ d) h = elim (Bool-cases (j == k)) [
    | inl same ↦ rw same (remove-IsDistinct k d h.1)
    | inr other ↦
        rw other (rw (lookup-remove j k d) (rw (apart k j other) h.0), remove-IsDistinct k d h.1)
  ]

  -- A removal takes the measure of its entry off the sum.
  pub total-remove :
      (f : V → ℕ) (k : K) (d : Dict K V)
      → IsDistinct d
      → total f (remove k d) + measured f (lookup k d) ≡ total f d
  total-remove f k [] h = omega arith
  total-remove f k ((j, u) ∷ d) h = ground (arith, e.is_equality j k, total-remove f k d h.1)
