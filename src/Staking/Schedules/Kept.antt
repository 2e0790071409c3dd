-- ===== src/Staking/Schedules/Kept.antt =====
-- A replacement of the schedules keeps those that have started.
use glow_contracts.Base.{
  ℕ, suc, ◌+◌, ◌≤◌, ◌≡◌, refl, sym, ap, ok, List, [], ◌∷◌, arith, with_ok, with_test, ok-injective,
  Bool-cases, inl, inr, ◌⊎◌, checked, checked-eq-ok, minus, minus-eq-ok, or_fail, or_fail-eq-ok,
  or_default, ltb, leb, ◌&&◌, length, ◌==◌, if◌then◌else◌, true, false, panic,
}
use glow_contracts.Dict.{Dict, lookup, insert, lookup-insert}
use glow_contracts.Dict.Distinct.{IsDistinct, insert-IsDistinct}
use glow_contracts.Staking.Types.{
  Config, State, Schedule, schedule_eq, schedule_beq, schedule_beq_iff,
}
use glow_contracts.Staking.Schedules.{
  count_schedules, take_out, keep_started, none_started, assert_new_schedules,
}

-- How often a schedule occurs in a list.
abbrev pub count : Schedule → List Schedule → ℕ
count x [] = 0
count x (y ∷ l) = let rest = count x l in if y == x then suc rest else rest

abbrev held : Dict Schedule ℕ → Schedule → ℕ
held d x = or_default 0 (lookup x d)

held-insert :
    (x s : Schedule) (n : ℕ) (d : Dict Schedule ℕ)
    → held (insert s n d) x ≡ (if s == x then n else held d x)
held-insert x s n d =
    rw (lookup-insert x s n d)
      (elim (Bool-cases (schedule_beq s x)) [ inl same ↦ rw same refl | inr other ↦ rw other refl ])

count_schedules-count :
    (d d' : Dict Schedule ℕ) (l : List Schedule)
    → count_schedules d l ≡ ok d'
    → (x : Schedule) → held d' x ≡ held d x + count x l
unfolding count_schedules
count_schedules-count d d' [] h x = rw (ok-injective h) (omega arith)
count_schedules-count d d' (s ∷ l) h x = with_ok (checked 32 (held d s + 1)) _ h λ n e r.
    let rest = count_schedules-count (insert s n d) d' l r x in
    elim (Bool-cases (schedule_beq s x)) [
      | inl same ↦
          let at_s : held (insert s n d) x ≡ n = rw same at (held-insert x s n d) in
          let moved = ap (held d) ((schedule_beq_iff s x).0 same) in
          rw same (omega (arith, rest, at_s, moved, checked-eq-ok 32 _ e))
      | inr other ↦
          let elsewhere : held (insert s n d) x ≡ held d x = rw other at (held-insert x s n d) in
          rw other (omega (arith, rest, elsewhere))
    ]

count_schedules-IsDistinct :
    (d d' : Dict Schedule ℕ) (l : List Schedule)
    → count_schedules d l ≡ ok d'
    → IsDistinct d
    → IsDistinct d'
unfolding count_schedules
count_schedules-IsDistinct d d' [] h k = rw (ok-injective (sym h)) k
count_schedules-IsDistinct d d' (s ∷ l) h k =
    with_ok (checked 32 (held d s + 1)) _ h
      λ n e r. count_schedules-IsDistinct (insert s n d) d' l r (insert-IsDistinct s n d k)

take_out-held :
    (s : Schedule) (c : ℕ) (d d' : Dict Schedule ℕ)
    → take_out s c d ≡ ok d'
    → (x : Schedule) → held d' x + (if s == x then c else 0) ≡ held d x
unfolding take_out
take_out-held s c d d' h x = with_test (ltb (held d s) c) _ _ h λ enough r1.
    with_ok (or_fail (lookup s d) panic) _ r1 λ n e2 r2. with_ok (minus n c) _ r2 λ left e3 r3.
      let found : held d s ≡ n = rw (or_fail-eq-ok (lookup s d) _ e2) refl in
      rw (sym (ok-injective r3)) (elim (Bool-cases (schedule_beq s x)) [
        | inl same ↦
            let at_s : held (insert s left d) x ≡ left = rw same at (held-insert x s left d) in
            let moved = ap (held d) ((schedule_beq_iff s x).0 same) in
            rw same (omega (arith, at_s, moved, found, minus-eq-ok n c e3))
        | inr other ↦
            let elsewhere : held (insert s left d) x ≡ held d x =
              rw other at (held-insert x s left d) in
            rw other (omega (arith, elsewhere))
      ])

keep_started-held :
    (last : ℕ) (existing new left : Dict Schedule ℕ)
    → keep_started last existing new ≡ ok left
    → IsDistinct existing
    → (x : Schedule) → x.0 ≤ last
    → held left x + held existing x ≡ held new x
unfolding keep_started
keep_started-held last [] new left h k x le = rw (ok-injective h) (omega arith)
keep_started-held last ((s, c) ∷ existing) new left h k x le =
    with_ok (if leb s.0 last then take_out s c new else ok new) _ h λ new1 e r.
      let rest = keep_started-held last existing new1 left r k.1 x le in
      let first = first_kept (Bool-cases (leb s.0 last)) new1 e in
      elim (Bool-cases (schedule_beq s x)) [
        | inl same ↦
            let absent = ap (held existing) (sym ((schedule_beq_iff s x).0 same)) in
            let none_more : held existing s ≡ 0 = rw k.0 refl in
            rw same (omega (arith, rest, absent, none_more, (rw same at first)))
        | inr other ↦ rw other (omega (arith, rest, (rw other at first)))
      ]
  where
    apart : leb s.0 last ≡ false → schedule_beq s x ≡ false
    apart later = ground (arith, schedule_beq_iff s x)

    first_kept :
        (leb s.0 last ≡ true) ⊎ (leb s.0 last ≡ false)
        → (new1 : Dict Schedule ℕ) → (if leb s.0 last then take_out s c new else ok new) ≡ ok new1
        → held new1 x + (if schedule_beq s x then c else 0) ≡ held new x
    first_kept (inl old) new1 e = take_out-held s c new new1 (rw old at e) x
    first_kept (inr later) new1 e =
        let same_new = ok-injective (rw later at e) in
        rw (sym same_new) (rw (apart later) (omega arith))

none_started-held :
    (last : ℕ) (d : Dict Schedule ℕ)
    → none_started last d ≡ ok tt
    → (x : Schedule) → x.0 ≤ last
    → held d x ≡ 0
unfolding none_started
none_started-held last [] h x le = refl
none_started-held last ((s, c) ∷ d) h x le =
    with_test (ltb 0 c && leb s.0 last) _ _ h λ none_left r.
      let rest = none_started-held last d r x le in
      elim (Bool-cases (schedule_beq s x)) [
        | inl same ↦ rw same (zero_count ((schedule_beq_iff s x).0 same) none_left)
        | inr other ↦ rw other rest
      ]
  where
    zero_count : s ≡ x → (ltb 0 c && leb s.0 last) ≡ false → c ≡ 0
    zero_count e none_left = ground (arith, ap (λ (t : Schedule). t.0) e)

-- When new schedules are accepted, each schedule that has started by the last distribution occurs
-- as often among them as among the old ones.
pub assert_new_schedules-count :
    (config : Config) (state : State) (new : List Schedule)
    → assert_new_schedules config state new ≡ ok tt
    → (x : Schedule) → x.0 ≤ state.last_distributed
    → count x new ≡ count x config.distribution_schedule
unfolding assert_new_schedules
assert_new_schedules-count config state new h x le =
    with_test (ltb (length new) (length config.distribution_schedule)) _ _ h λ enough r1.
      with_ok (count_schedules [] config.distribution_schedule) _ r1 λ existing e2 r2.
        with_ok (count_schedules [] new) _ r2 λ counts e3 r3.
          with_ok (keep_started state.last_distributed existing counts) _ r3 λ left e4 r4. omega (
            arith,
            count_schedules-count [] existing config.distribution_schedule e2 x,
            count_schedules-count [] counts new e3 x,
            keep_started-held state.last_distributed existing counts left e4
                (count_schedules-IsDistinct [] existing config.distribution_schedule e2 tt) x le,
            none_started-held state.last_distributed left r4 x le,
          )
