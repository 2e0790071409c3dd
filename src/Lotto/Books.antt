-- ===== src/Lotto/Books.antt =====
-- The books of the lotto: the sums over depositors, sponsors and operators that the pool and the
-- state keep as totals (the comments on `Pool`, `State`, `SponsorInfo` and `OperatorInfo` in
-- contracts/lotto/src/state.rs).
mod Sums
pub use Sums.*
use glow_contracts.Base.{ℕ, ◌+◌, ◌≤◌, ◌≡◌, length}
use glow_contracts.Dict.{total}
use glow_contracts.Lotto.Types.{Store, Addr}
use glow_contracts.Lotto.Operators.Shares.{operator_shares}

abbrev pub sponsor_deposits : Store → ℕ
sponsor_deposits s = total (λ i. i.lottery_deposit) s.sponsors

-- The books of a store: the depositors' shares and the sponsors' deposits are exactly the pool's
-- totals, the tickets counted in the state are tickets of depositors, the shares counted for
-- operators are shares of operators, and the number of tickets beside a depositor's shares is the
-- number of tickets that are stored.
pub record IsBalanced (s : Store) : Type 0 where
  pub shares : user_shares s ≡ s.pool.total_user_shares
  pub sponsors : sponsor_deposits s ≡ s.pool.total_sponsor_lottery_deposits
  pub tickets : s.state.total_tickets ≤ user_tickets s
  pub operators : s.pool.total_operator_shares ≤ operator_shares s
  pub synced : IsSynced s
