-- ===== src/Gov/Books.antt =====
-- When the records of the governance contract agree with each other.
pub mod Polls
pub mod Calls
pub mod Stakes
use glow_contracts.Base.{
  ℕ, ◌+◌, ◌≤◌, ◌<◌, ◌≡◌, Bool, true, false, ◌&&◌, Option, none, some, List, [], nat_beq, nat_eq,
  pair_eq, if◌then◌else◌, Addr,
}
use glow_contracts.Dict.{lookup, total, tally, measured}
use glow_contracts.Gov.Types.{
  Store, Poll, PollStatus, in_progress, status_beq, index_eq, VoteOption, yes, no, VoterInfo,
  TokenManager,
}

-- The deposit that a poll holds.
abbrev pub held_deposit : Poll → ℕ
held_deposit q = if status_beq q.status in_progress then q.deposit_amount else 0

abbrev pub vote_beq : VoteOption → VoteOption → Bool
vote_beq yes yes = true
vote_beq no no = true
vote_beq _ _ = false

-- What a recorded vote counts for an option of a poll.
abbrev pub counted : VoteOption → ℕ → ℕ × Addr → VoterInfo → ℕ
counted o id (poll_id, voter) v = if nat_beq poll_id id && vote_beq v.vote o then v.balance else 0

-- The votes that a poll has for an option.
abbrev pub votes_for : VoteOption → Poll → ℕ
votes_for yes q = q.yes_votes
votes_for no q = q.no_votes

-- What the indexer says of a poll under a status.
abbrev pub index_entry : PollStatus → Option Poll → Option Bool
index_entry st none = none
index_entry st (some q) = if status_beq st q.status then some true else none

-- The stakers' shares add up to the total, the deposits of the polls in progress to the total
-- deposit, and the recorded votes on each poll to its votes; polls stand under their ids, which the
-- count bounds; the indexer has each poll under its status and no other; no balance is locked.
pub record IsConsistent (s : Store) : Type 0 where
  pub shares : total (λ m. m.share) s.bank ≡ s.state.total_share
  pub deposits : total held_deposit s.polls ≡ s.state.total_deposit
  pub ids :
      (id : ℕ) (q : Poll)
      → lookup id s.polls ≡ some q
      → (q.id ≡ id) × ((0 < id) × (id ≤ s.state.poll_count))
  pub tallies :
      (o : VoteOption) (id : ℕ)
      → tally (counted o id) s.poll_voters ≡ measured (votes_for o) (lookup id s.polls)
  pub indexed :
      (st : PollStatus) (id : ℕ)
      → lookup (st, id) s.poll_indexer ≡ index_entry st (lookup id s.polls)
  pub unlocked : (a : Addr) (m : TokenManager) → lookup a s.bank ≡ some m → m.locked_balance ≡ []
