-- ===== src/Lib.antt =====
-- The contracts of the Glow protocol, in CosmWasm: the lotto, a no-loss lottery on the Anchor money
-- market, the governance contract, the staking of liquidity, the airdrop of GLOW and its vesting.
--
-- Users deposit a stable coin, which the contract places at Anchor for aUST. A depositor holds
-- shares of the aUST of all depositors, and tickets, combinations of six hexadecimal digits, as many
-- as the balance pays for. Sponsors place deposits of their own, whose interest goes to the prizes.
-- Depositors may name an operator, and operators and sponsors earn GLOW by a global index. At
-- intervals the interest is redeemed (the draw), a sequence is taken from an oracle, the holders of
-- the matching tickets are recorded page by page, and the winners claim their part of the buckets. A
-- withdrawal is paid at once for a fee or becomes a claim that is paid after the unbonding period.
--
-- In the governance contract, accounts stake GLOW for shares of the contract's balance and propose
-- polls with a deposit. Votes weigh what the ve-token says of an account at the time the poll began.
-- A poll that has ended passes or is rejected, and one that passed sends its messages to the other
-- contracts after a time lock, or expires. The staking contract takes the tokens of a liquidity pool
-- and distributes GLOW along a schedule by a global index of the reward for each token. The airdrop
-- pays claims that a Merkle proof shows to be in a stage's root, until the stage expires. Vesting
-- releases the amounts of schedules, each evenly from one time to another, when an account claims. The
-- distributor holds GLOW that listed accounts may spend, and adjusts the rate at which the lotto emits it.
--
-- The files and the code (contracts/lotto/src unless another path is given):
-- - Base: lists and tests on native numbers, and errors as values (Outcome: error.rs, where a Rust
--   panic is one more error, since both abort the transaction). Dict: maps as association lists.
-- - Platform: everything that is called and lies outside the repository, as a record of functions and
--   of their documented laws: the checked numbers of 128 and 256 bits and the fractions of
--   cosmwasm_bignumber, the times of cw0, address validation, the queries to other contracts, base64,
--   hexadecimal text and Keccak. A query answers as it does in the block of the call.
--   Platform/Testnet: a platform with concrete functions, for the examples.
-- - Tax: compute_tax and deduct_tax (packages/glow_protocol/src/querier.rs).
-- - Lotto/Types, Lotto/Storage: the records and the reads and writes of state.rs; the storage is one
--   record, and a handler takes it and returns the new one with the messages it sends, or an error.
--   DEPOSITOR_STATS, a snapshot map, is the list of the values that were written with their heights,
--   and the value at a height is the one at the start of that block.
-- - Lotto/Rewards, Lotto/Tickets, Lotto/Operators: the first part of helpers.rs.
-- - Lotto/Deposit, Lotto/Withdraw, Lotto/Unbonding, Lotto/Sponsor, Lotto/Claims, Lotto/Admin: the
--   handlers of contract.rs, and the parts of helpers.rs that they call.
-- - Lotto/Draw, Lotto/Prize: execute_lottery and execute_prize of prize_strategy.rs, with oracle.rs.
-- - Lotto/Books: what it means that the books are balanced: the shares of the depositors add up to
--   the pool's, the sponsors' deposits to theirs, the tickets of the depositors cover the state's
--   count, the operators' shares cover their sum, and a depositor's number of tickets is the number
--   stored. The other child modules hold the proofs about their parent.
-- - Lotto/Steps: the calls as a step relation on the storage, and the states that are reached. It
--   leaves out the award of prizes, the end of an epoch, the claim of rewards and the administration.
--   Lotto/Claims/Runs takes sequences of these steps and of awards of prizes.
-- - Lotto/Examples: a small state, and calls of the handlers.
-- - Gov (contracts/gov/src): Types: the records of state.rs and the messages of
--   packages/glow_protocol/src/gov.rs; Staking: staking.rs; Polls and Contract: contract.rs. A poll
--   stands under its id, the indexer has a key for each status and id, the voters one for each poll
--   and account. Polls/Success and Staking/Success say what a call has done when it succeeds,
--   Contract/Cases takes a call of execute apart, Books defines when the records are consistent, and
--   Runs has the sequences of calls, with the life of a poll as it is seen from outside, and in
--   Runs/Endings what they keep that the end of a poll needs.
-- - Staking (contracts/staking/src): Rewards: the index and the rewards; Schedules: the distribution
--   schedules; Contract: the handlers; Solvency: what is owed against what was distributed; Runs: the
--   sequences of calls with the amounts that they distribute and pay.
-- - Airdrop (contracts/airdrop/src): Contract: the handlers; Calls: what they have done and keep;
--   Runs: the sequences of calls.
-- - Vesting (contracts/vesting/src): Contract: the handlers; Claims: what is left of the schedules, and
--   what a claim takes from it; Runs: the sequences of calls, with what they register and pay.
-- - Distributor (contracts/distributor/src): Contract: the handlers and the query of the emission rate,
--   Rates: the configuration's bounds and the rates it gives.
--
-- Bounds: generated tickets are added in at most 100 rounds, as in the code, so no fuel is chosen.
-- The numbers of tickets of a depositor are taken mod 2 ^ 64 and the claims mod 2 ^ 8 where the code
-- casts them; the lengths of lists themselves are those of lists in memory and stay below 2 ^ 64.
-- Addresses are numbers, with 0 for the empty address. The maps are finite, and TICKETS is kept in
-- the order of its keys, which its ranges rely on.
--
-- In the other contracts a message that a token brings is given as decoded, or as nothing where it is
-- none of the hooks. Canonical addresses are numbers too, and 0 is the empty one. Integers of the
-- language itself are checked against their width, since the crates are built with overflow checks.
--
-- Not modelled: the dispatch of the lotto's messages with the pause, its instantiate and migrate, the
-- queries of the contracts, the attributes of responses, and the other contracts of the repository:
-- ve-token, fee-distributor and community.
pub mod Base
pub mod Dict
pub mod Tax
pub mod Platform
pub mod Lotto
pub mod Gov
pub mod Staking
pub mod Airdrop
pub mod Vesting
pub mod Distributor
