-- ===== src/Dict.antt =====
-- Storage maps and buckets, as association lists over keys with an equality test.
pub mod Distinct
use glow_contracts.Base.{
  ℕ, ◌+◌, ◌≤◌, ◌≡◌, refl, Bool, Option, none, some, List, [], ◌∷◌, arith, Eq, ◌==◌, if◌then◌else◌,
}

abbrev pub Dict : Type 0 → Type 0 → Type 0
Dict K V = List (K × V)

module _ {K V : Type 0} where
  -- The sum of a measure over all entries.
  abbrev pub total : (V → ℕ) → Dict K V → ℕ
  total f [] = 0
  total f ((j, v) ∷ d) = f v + total f d

abbrev pub measured : {V : Type 0} → (V → ℕ) → Option V → ℕ
measured f none = 0
measured f (some v) = f v

module _ {K V : Type 0} ⦃e : Eq K⦄ where
  abbrev pub lookup : K → Dict K V → Option V
  lookup k [] = none
  lookup k ((j, v) ∷ d) = if j == k then some v else lookup k d

  abbrev pub insert : K → V → Dict K V → Dict K V
  insert k v [] = (k, v) ∷ []
  insert k v ((j, u) ∷ d) = if j == k then (k, v) ∷ d else (j, u) ∷ insert k v d

  abbrev pub remove : K → Dict K V → Dict K V
  remove k [] = []
  remove k ((j, u) ∷ d) = let rest = remove k d in if j == k then rest else (j, u) ∷ rest

  -- The sum of a measure of the keys and their values.
  abbrev pub tally : (K → V → ℕ) → Dict K V → ℕ
  tally f [] = 0
  tally f ((j, v) ∷ d) = f j v + tally f d

  pub lookup-remove :
      (j k : K) (d : Dict K V) → lookup j (remove k d) ≡ (if k == j then none else lookup j d)
  lookup-remove j k [] = ground arith
  lookup-remove j k ((i, u) ∷ d) =
      ground (arith, e.is_equality k j, e.is_equality i k, e.is_equality i j, lookup-remove j k d)

  -- A new entry adds its measure.
  pub tally-insert :
      (f : K → V → ℕ) (k : K) (v : V) (d : Dict K V)
      → lookup k d ≡ none
      → tally f (insert k v d) ≡ tally f d + f k v
  tally-insert f k v [] h = omega arith
  tally-insert f k v ((j, u) ∷ d) h = ground (arith, tally-insert f k v d)

  pub lookup-insert :
      (j k : K) (v : V) (d : Dict K V)
      → lookup j (insert k v d) ≡ (if k == j then some v else lookup j d)
  lookup-insert j k v [] = refl
  lookup-insert j k v ((i, u) ∷ d) =
      ground (arith, e.is_equality k j, e.is_equality i k, e.is_equality i j, lookup-insert j k v d)

  -- A new value that measures as much as the old one.
  pub measured-insert :
      (f : V → ℕ) (j k : K) (v : V) (d : Dict K V)
      → measured f (lookup k d) ≡ f v
      → measured f (lookup j (insert k v d)) ≡ measured f (lookup j d)
  measured-insert f j k v d h = ground (arith, e.is_equality k j, lookup-insert j k v d)

  -- An insertion changes the sum by the difference at its key.
  pub total-insert :
      (f : V → ℕ) (k : K) (v : V) (d : Dict K V)
      → total f (insert k v d) + measured f (lookup k d) ≡ total f d + f v
  total-insert f k v [] = omega arith
  total-insert f k v ((j, u) ∷ d) = ground (arith, total-insert f k v d)

  -- No value measures more than the sum.
  pub measured-le-total : (f : V → ℕ) (k : K) (d : Dict K V) → measured f (lookup k d) ≤ total f d
  measured-le-total f k [] = omega arith
  measured-le-total f k ((j, u) ∷ d) = ground (arith, measured-le-total f k d)

-- Maps that are kept in the order of their keys.
module _ {K V : Type 0} ⦃e : Eq K⦄ (before : K → K → Bool) where
  abbrev pub insert_in_order : K → V → Dict K V → Dict K V
  insert_in_order k v [] = (k, v) ∷ []
  insert_in_order k v ((j, u) ∷ d) =
      if j == k
      then (k, v) ∷ d
      else if before k j
      then (k, v) ∷ (j, u) ∷ d
      else (j, u) ∷ insert_in_order k v d

  pub lookup-insert_in_order :
      (j k : K) (v : V) (d : Dict K V)
      → lookup j (insert_in_order k v d) ≡ (if k == j then some v else lookup j d)
  lookup-insert_in_order j k v [] = refl
  lookup-insert_in_order j k v ((i, u) ∷ d) = ground (
    arith,
    e.is_equality k j,
    e.is_equality i k,
    e.is_equality i j,
    lookup-insert_in_order j k v d,
  )
