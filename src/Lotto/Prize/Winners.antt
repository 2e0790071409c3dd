-- ===== src/Lotto/Prize/Winners.antt =====
-- The counts of winners and the prizes that are recorded.
use glow_contracts.Base.{
  ℕ, zero, suc, ◌+◌, ◌≡◌, ◌∙◌, refl, subst, Option, none, some, List, [], ◌∷◌, ok, with_ok, arith,
  checked, or_fail, panic, set, get_elem?, length, pair_eq, false, true, ok-injective, Bool-cases,
  inl, inr, sym, Result, err, Bool, if◌then◌else◌, nat_beq, nat_beq_iff, nat_eq, ◌&&◌, ap,
}
use glow_contracts.Dict.{Dict, lookup, lookup-insert}
use glow_contracts.Lotto.Types.{PrizeInfo, Addr, Ticket}
use glow_contracts.Lotto.Storage.{or_default, zeros}
use glow_contracts.Lotto.Prize.{bump, award_holder, award_holders, award_tickets, count_seq_matches}

checked-eq : (old n new : ℕ) → checked 32 (old + n) ≡ ok new → new ≡ old + n
checked-eq old n new h = ground arith

or_fail-eq : (o : Option ℕ) (x : ℕ) → or_fail o panic ≡ ok x → o ≡ some x
or_fail-eq none x h = cc
or_fail-eq (some y) x h = ground arith

-- The number at a rank.
abbrev pub nth : List ℕ → ℕ → ℕ
nth l r = or_default 0 (get_elem? l r)

abbrev pub blank : PrizeInfo
blank = record { claimed = false; matches = zeros }

-- The prize of an account in a lottery, blank where there is none.
abbrev pub prize_of : Dict (ℕ × ℕ) PrizeInfo → ℕ × ℕ → PrizeInfo
prize_of prizes k = or_default blank (lookup k prizes)

-- How often an account holds a ticket.
abbrev pub held_by : Addr → List Addr → ℕ
held_by b [] = 0
held_by b (a ∷ ws) = (if nat_beq a b then 1 else 0) + held_by b ws

abbrev pub is_rank : Result ℕ → ℕ → Bool
is_rank (ok m) r = nat_beq m r
is_rank (err e) r = false

-- The holders of the tickets of a rank on a page, as a measure counts them.
abbrev pub hits : Ticket → ℕ → (List Addr → ℕ) → Dict Ticket (List Addr) → ℕ
hits sequence r f [] = 0
hits sequence r f ((t, ws) ∷ page) =
    (if is_rank (count_seq_matches sequence t) r then f ws else 0) + hits sequence r f page

nth-set :
    (l : List ℕ) (i old new r : ℕ)
    → get_elem? l i ≡ some old
    → nth (set l i new) r ≡ (if nat_beq i r then new else nth l r)
nth-set [] i old new r h = ground arith
nth-set (x ∷ l) zero old new zero h = ground arith
nth-set (x ∷ l) zero old new (suc r) h = ground arith
nth-set (x ∷ l) (suc i) old new zero h = ground arith
nth-set (x ∷ l) (suc i) old new (suc r) h = ground (arith, nth-set l i old new r)

nth-same :
    (l : List ℕ) (i old r : ℕ) → get_elem? l i ≡ some old → nat_beq i r ≡ true → nth l r ≡ old
nth-same l i old r h same = rw (sym ((nat_beq_iff i r).0 same)) (rw h refl)

nth-bump :
    (l l' : List ℕ) (i n r : ℕ)
    → bump l i n ≡ ok l'
    → nth l' r ≡ nth l r + (if nat_beq i r then n else 0)
unfolding bump
nth-bump l l' i n r h = with_ok (or_fail (get_elem? l i) panic) _ h λ old e1 h1.
    with_ok (checked 32 (old + n)) _ h1 λ new e2 h2.
      let found = or_fail-eq (get_elem? l i) old e1 in
      subst (λ (x : List ℕ). nth x r ≡ nth l r + (if nat_beq i r then n else 0)) (ok-injective h2)
        (ground
          (arith, nth-set l i old new r found, nth-same l i old r found, checked-eq old n new e2))

-- The award of tickets of a rank to an account in a lottery: so many matches more, and whether the
-- prize is claimed stays.
abbrev Noted :
    (id rank n : ℕ) (b : Addr) → Dict (ℕ × ℕ) PrizeInfo → Dict (ℕ × ℕ) PrizeInfo → ℕ → ℕ → Type 0
Noted id rank n b prizes prizes' j r =
    (nth (prize_of prizes' (j, b)).matches r
      ≡ nth (prize_of prizes (j, b)).matches r + (if nat_beq id j && nat_beq rank r then n else 0))
    × ((prize_of prizes' (j, b)).claimed ≡ (prize_of prizes (j, b)).claimed)

award_holder-Noted :
    (id rank : ℕ) (prizes prizes' : Dict (ℕ × ℕ) PrizeInfo) (a b : Addr) (j r : ℕ)
    → award_holder id rank prizes a ≡ ok prizes'
    → Noted id rank (if nat_beq a b then 1 else 0) b prizes prizes' j r
unfolding award_holder
award_holder-Noted id rank prizes prizes' a b j r h =
    let old : PrizeInfo = prize_of prizes (id, a) in
    with_ok (bump old.matches rank 1) _ h λ counts e1 h1.
      let won : PrizeInfo = record old { matches = counts } in
      subst (λ d. Noted id rank (if nat_beq a b then 1 else 0) b prizes d j r) (ok-injective h1)
        (placed won _ (lookup-insert (j, b) (id, a) won prizes)
          (nth-bump old.matches counts rank 1 r e1) refl same)
  where
    same :
        nat_beq id j ≡ true → nat_beq a b ≡ true → prize_of prizes (id, a) ≡ prize_of prizes (j, b)
    same e f = rw ((nat_beq_iff id j).0 e) (rw ((nat_beq_iff a b).0 f) refl)

    placed :
        (won : PrizeInfo) (d : Dict (ℕ × ℕ) PrizeInfo)
        → lookup (j, b) d ≡ (if nat_beq id j && nat_beq a b then some won else lookup (j, b) prizes)
        → nth won.matches r
          ≡ nth (prize_of prizes (id, a)).matches r + (if nat_beq rank r then 1 else 0)
        → won.claimed ≡ (prize_of prizes (id, a)).claimed
        → (nat_beq id j ≡ true
            → nat_beq a b ≡ true
            → prize_of prizes (id, a) ≡ prize_of prizes (j, b))
        → Noted id rank (if nat_beq a b then 1 else 0) b prizes d j r
    placed won d found more claimed equal = elim (Bool-cases (nat_beq id j)) [
      | inl e ↦ elim (Bool-cases (nat_beq a b)) [
        | inl f ↦
            let at : lookup (j, b) d ≡ some won = rw (e, f) at found in
            let one = equal e f in
            (
              rw at
                  (rw e (rw f (ground (arith, more, ap (λ (x : PrizeInfo). nth x.matches r) one)))),
              rw at (claimed ∙ ap (λ (x : PrizeInfo). x.claimed) one),
            )
        | inr f ↦
            let at : lookup (j, b) d ≡ lookup (j, b) prizes = rw (e, f) at found in
            (rw at (rw e (rw f (ground arith))), rw at refl)
      ]
      | inr e ↦
          let at : lookup (j, b) d ≡ lookup (j, b) prizes = rw e at found in
          (rw at (rw e (ground arith)), rw at refl)
    ]

award_holders-Noted :
    (id rank : ℕ) (ws : List Addr) (prizes prizes' : Dict (ℕ × ℕ) PrizeInfo) (b : Addr) (j r : ℕ)
    → award_holders id rank ws prizes ≡ ok prizes'
    → Noted id rank (held_by b ws) b prizes prizes' j r
unfolding award_holders
award_holders-Noted id rank [] prizes prizes' b j r h =
    subst (λ d. Noted id rank 0 b prizes d j r) (ok-injective h) (ground arith, refl)
award_holders-Noted id rank (a ∷ ws) prizes prizes' b j r h =
    with_ok (award_holder id rank prizes a) _ h λ prizes1 e h1.
      let one = award_holder-Noted id rank prizes prizes1 a b j r e in
      let more = award_holders-Noted id rank ws prizes1 prizes' b j r h1 in
      (ground (arith, one.0, more.0), more.1 ∙ one.1)

-- What the award of a page has done to the numbers of winners and to the prizes.
pub record Awarded (id : ℕ) (sequence : Ticket) (page : Dict Ticket (List Addr))
    (winners winners' : List ℕ) (prizes prizes' : Dict (ℕ × ℕ) PrizeInfo) : Type 0 where
  pub winners_lem :
      (r : ℕ) → nth winners' r ≡ nth winners r + hits sequence r (λ ws. length ws) page
  pub prizes_lem :
      (j : ℕ) (b : Addr) (r : ℕ)
      → nth (prize_of prizes' (j, b)).matches r
        ≡ nth (prize_of prizes (j, b)).matches r
          + (if nat_beq id j then hits sequence r (held_by b) page else 0)
  pub claimed_lem :
      (j : ℕ) (b : Addr) → (prize_of prizes' (j, b)).claimed ≡ (prize_of prizes (j, b)).claimed

-- An award of a page of tickets that succeeds adds, for each rank, the number of holders of the
-- page's tickets with that many matches to the winners of the rank, and, for each account, how
-- often it holds such a ticket to the matches of the rank in its prize of this lottery. The
-- matches of other lotteries do not change, nor does which prizes are claimed.
pub award_tickets_lem :
    (id : ℕ) (sequence : Ticket) (page : Dict Ticket (List Addr)) (winners winners' : List ℕ)
    (prizes prizes' : Dict (ℕ × ℕ) PrizeInfo)
    → award_tickets id sequence page winners prizes ≡ ok (winners', prizes')
    → Awarded id sequence page winners winners' prizes prizes'
unfolding award_tickets
award_tickets_lem id sequence [] winners winners' prizes prizes' h =
    subst (λ (x : List ℕ × Dict (ℕ × ℕ) PrizeInfo). Awarded id sequence [] winners x.0 prizes x.1)
      (ok-injective h)
      (record {
        winners_lem = λ r. omega arith;
        prizes_lem = λ j b r. ground arith;
        claimed_lem = λ j b. refl;
      })
award_tickets_lem id sequence ((t, ws) ∷ page) winners winners' prizes prizes' h =
    with_ok (count_seq_matches sequence t) _ h λ matches e1 h1.
      with_ok (bump winners matches (length ws)) _ h1 λ winners1 e2 h2.
        with_ok (award_holders id matches ws prizes) _ h2 λ prizes1 e3 h3.
          let ih = award_tickets_lem id sequence page winners1 winners' prizes1 prizes' h3 in
          record {
            winners_lem = λ r.
                rw e1 omega
                  (arith, ih.winners_lem r, nth-bump winners winners1 matches (length ws) r e2);
            prizes_lem = λ j b r. rw e1 ground (
              arith,
              ih.prizes_lem j b r,
              (award_holders-Noted id matches ws prizes prizes1 b j r e3).0,
            );
            claimed_lem = λ j b.
                ih.claimed_lem j b ∙ (award_holders-Noted id matches ws prizes prizes1 b j 0 e3).1;
          }
