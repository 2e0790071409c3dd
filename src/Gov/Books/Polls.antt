-- ===== src/Gov/Books/Polls.antt =====
-- Changes of one poll keep the records consistent.
use glow_contracts.Base.{
  ℕ, ◌+◌, ◌≡◌, ◌∙◌, sym, subst, true, none, some, nat_eq, pair_eq, arith, Addr, inl, inr, refl,
  Option-cases,
}
use glow_contracts.Dict.{
  lookup, insert, remove, lookup-insert, lookup-remove, total-insert, measured-insert, tally-insert,
  measured,
}
use glow_contracts.Gov.Types.{
  Store, Poll, PollStatus, in_progress, status_beq_iff, index_eq, VoteOption, yes, no, VoterInfo,
}
use glow_contracts.Gov.Polls.{move_poll}
use glow_contracts.Gov.Books.{IsConsistent, held_deposit, counted, votes_for}

move_poll_at_id :
    (s : Store) (id t : ℕ) (q q' : Poll) (st : PollStatus)
    → IsConsistent s
    → lookup id s.polls ≡ some q
    → q'.id ≡ q.id
    → q'.status ≡ q.status
    → q'.yes_votes ≡ q.yes_votes
    → q'.no_votes ≡ q.no_votes
    → t + held_deposit q ≡ s.state.total_deposit + held_deposit (record q' { status = st })
    → IsConsistent
        (move_poll (record s { state = record s.state { total_deposit = t } }) id id q' st)
unfolding move_poll
move_poll_at_id s id t q q' st h found same old ys ns dep = record {
  shares = h.shares;
  deposits = omega (
    arith,
    h.deposits,
    ap-measured,
    total-insert held_deposit id (record q' { status = st }) s.polls,
  );
  ids = λ j r e.
      ground (
        arith,
        h.ids j r,
        h.ids id q found,
        lookup-insert j id (record q' { status = st }) s.polls,
      );
  tallies = λ o j.
      h.tallies o j
      ∙ sym (
          measured-insert (votes_for o) j id (record q' { status = st }) s.polls
            (rw found (same_votes o)));
  indexed = λ st' j. ground (
    arith,
    h.indexed st' j,
    lookup-insert j id (record q' { status = st }) s.polls,
    lookup-insert (st', j) (st, id) true (remove (q'.status, id) s.poll_indexer),
    lookup-remove (st', j) (q'.status, id) s.poll_indexer,
    status_beq_iff st st',
    status_beq_iff q.status st',
    status_beq_iff st' q.status,
    status_beq_iff st' st,
  );
  unlocked = h.unlocked;
}
  where
    ap-measured : measured held_deposit (lookup id s.polls) ≡ held_deposit q
    ap-measured = rw found refl

    same_votes : (o : VoteOption) → votes_for o q ≡ votes_for o (record q' { status = st })
    same_votes yes = sym ys
    same_votes no = sym ns

-- A poll in another status, with the same votes, and the total deposit changed by what it holds.
pub move_poll-IsConsistent :
    (s : Store) (id n t : ℕ) (q q' : Poll) (st : PollStatus)
    → IsConsistent s
    → lookup id s.polls ≡ some q
    → n ≡ id
    → q'.id ≡ q.id
    → q'.status ≡ q.status
    → q'.yes_votes ≡ q.yes_votes
    → q'.no_votes ≡ q.no_votes
    → t + held_deposit q ≡ s.state.total_deposit + held_deposit (record q' { status = st })
    → IsConsistent
        (move_poll (record s { state = record s.state { total_deposit = t } }) id n q' st)
move_poll-IsConsistent s id n t q q' st h found at same old ys ns dep =
    subst
      (λ k.
        IsConsistent
          (move_poll (record s { state = record s.state { total_deposit = t } }) id k q' st))
      (sym at) (move_poll_at_id s id t q q' st h found same old ys ns dep)

-- A new poll under the next id, with its deposit in the total.
pub open_poll-IsConsistent :
    (s : Store) (id t : ℕ) (q : Poll)
    → IsConsistent s
    → id ≡ s.state.poll_count + 1
    → q.id ≡ id
    → q.status ≡ in_progress
    → q.yes_votes ≡ 0
    → q.no_votes ≡ 0
    → t ≡ s.state.total_deposit + q.deposit_amount
    → IsConsistent (record s {
      state = record s.state { poll_count = id; total_deposit = t };
      polls = insert id q s.polls;
      poll_indexer = insert (in_progress, id) true s.poll_indexer;
    })
open_poll-IsConsistent s id t q h new same live ys ns dep = record {
  shares = h.shares;
  deposits =
      omega (arith, h.deposits, dep, none_held, held, total-insert held_deposit id q s.polls);
  ids = λ j r e. ground (arith, h.ids j r, lookup-insert j id q s.polls);
  tallies = λ o j.
      h.tallies o j ∙ sym (measured-insert (votes_for o) j id q s.polls (rw unused (no_votes o)));
  indexed = λ st' j. ground (
    arith,
    unused,
    h.indexed st' j,
    lookup-insert j id q s.polls,
    lookup-insert (st', j) (in_progress, id) true s.poll_indexer,
  );
  unlocked = h.unlocked;
}
  where
    unused : lookup id s.polls ≡ none
    unused = elim (Option-cases (lookup id s.polls)) [
      | inl nothing ↦ nothing
      | inr (r, found) ↦ absurd (omega (arith, h.ids id r found))
    ]

    none_held : measured held_deposit (lookup id s.polls) ≡ 0
    none_held = rw unused refl

    held : held_deposit q ≡ q.deposit_amount
    held = rw live refl

    no_votes : (o : VoteOption) → 0 ≡ votes_for o q
    no_votes yes = sym ys
    no_votes no = sym ns

-- A new vote, counted in the poll.
pub record_vote-IsConsistent :
    (s : Store) (id : ℕ) (voter : Addr) (v : VoterInfo) (q q' : Poll)
    → IsConsistent s
    → lookup id s.polls ≡ some q
    → lookup (id, voter) s.poll_voters ≡ none
    → q'.id ≡ q.id
    → q'.status ≡ q.status
    → q'.deposit_amount ≡ q.deposit_amount
    → ((o : VoteOption) → votes_for o q' ≡ votes_for o q + counted o id (id, voter) v)
    → IsConsistent (record s {
      poll_voters = insert (id, voter) v s.poll_voters;
      polls = insert id q' s.polls;
    })
record_vote-IsConsistent s id voter v q q' h found free same kept dep votes = record {
  shares = h.shares;
  deposits =
      omega (arith, h.deposits, held_before, held_after, total-insert held_deposit id q' s.polls);
  ids = λ j r e. ground (arith, h.ids j r, h.ids id q found, lookup-insert j id q' s.polls);
  tallies = λ o j. ground (
    arith,
    h.tallies o j,
    votes o,
    tally-insert (counted o j) (id, voter) v s.poll_voters free,
    lookup-insert j id q' s.polls,
  );
  indexed = λ st' j. ground (arith, h.indexed st' j, lookup-insert j id q' s.polls);
  unlocked = h.unlocked;
}
  where
    held_before : measured held_deposit (lookup id s.polls) ≡ held_deposit q
    held_before = rw found refl

    held_after : held_deposit q' ≡ held_deposit q
    held_after = rw kept (rw dep refl)
