-- ===== src/Lotto/Prize.antt =====
-- The award of prizes, page by page (contracts/lotto/src/prize_strategy.rs and helpers.rs).
pub mod Schedule
pub mod Buckets
pub mod Range
pub mod Winners
use glow_contracts.Base.{
  ℕ, ◌+◌, ◌-◌, ◌/◌, zero, suc, Bool, true, false, not, ◌&&◌, Option, none, some, List, [], ◌∷◌,
  ◌++◌, Result, ok, err, panic, std, lotto, ◌>>=◌, ◌>>◌, fail_if, or_fail, nat_beq, ltb, checked,
  if◌then◌else◌, length, take, drop, get_elem?, set, at_time, at_height, never, time, height,
  Expiration, Duration, pair_eq, invalid_lottery_prize_execution_funds,
  invalid_lottery_prize_execution, invalid_lottery_prize_execution_expired,
  invalid_lottery_next_time, invalid_lottery_interval,
}
use glow_contracts.Dict.{Dict, lookup, insert}
use glow_contracts.Platform.{Platform}
use glow_contracts.Lotto.Types.{
  Store, State, Config, LotteryInfo, PrizeInfo, Addr, Env, MessageInfo, Msg, Ticket, ticket_length,
}
use glow_contracts.Lotto.Storage.{read_lottery_info, store_lottery_info, or_default, zeros}
use glow_contracts.Lotto.Tickets.{text_before}
use glow_contracts.Lotto.Draw.{no_funds}

-- `hash[2..8]`
unfoldable pub sequence_from_hash : List ℕ → Result Ticket
sequence_from_hash hash =
    if ltb (length hash) (ticket_length + 2)
    then err panic
    else ok (take ticket_length (drop 2 hash))

unfoldable pub first_nonzero : ℕ → List ℕ → Option ℕ
first_nonzero index [] = none
first_nonzero index (d ∷ ds) = if nat_beq d 0 then first_nonzero (index + 1) ds else some index

unfoldable pub get_minimum_matches_for_winning_ticket : List ℕ → Result ℕ
unfolding first_nonzero
get_minimum_matches_for_winning_ticket distribution = or_fail (first_nonzero 0 distribution) (
    std
      "The minimum matches for a winning ticket could not be calculated due to a malforming of the prize distribution")

abbrev pub fill_f : ℕ → List ℕ
fill_f zero = []
fill_f (suc n) = b'f' ∷ fill_f n

-- `min_bound[..n]`, which panics past the end.
abbrev pub prefix : ℕ → List ℕ → Result (List ℕ)
prefix n t = if ltb (length t) n then err panic else ok (take n t)

unfoldable pub calculate_max_bound : Ticket → ℕ → Result Ticket
calculate_max_bound min_bound n = do
  start ← prefix n min_bound
  ok (start ++ fill_f (ticket_length - length start))

unfoldable pub count_seq_matches : Ticket → Ticket → Result ℕ
count_seq_matches [] b = ok 0
count_seq_matches (x ∷ a) [] = err panic
count_seq_matches (x ∷ a) (y ∷ b) =
    let rest = do n ← count_seq_matches a b; ok (suc n)
    in if nat_beq x y then rest else ok 0

-- The entries of an ordered map with a key from `low` (or after it) up to `high`.
abbrev pub in_range : Bool → Ticket → Ticket → Ticket → Bool
in_range inclusive low high k =
    (if inclusive then not (text_before k low) else text_before low k) && not (text_before high k)

unfoldable pub range : {V : Type 0} → Bool → Ticket → Ticket → Dict Ticket V → Dict Ticket V
range inclusive low high [] = []
range inclusive low high ((k, v) ∷ d) =
    if in_range inclusive low high k
    then (k, v) ∷ range inclusive low high d
    else range inclusive low high d

-- The last key of a page.
abbrev pub last_key : {V : Type 0} → Ticket → Dict Ticket V → Ticket
last_key k [] = k
last_key k ((j, v) ∷ d) = last_key j d

-- `array[i] += n` on an array of `u32`
unfoldable pub bump : List ℕ → ℕ → ℕ → Result (List ℕ)
bump l i n = do old ← or_fail (get_elem? l i) panic; new ← checked 32 (old + n); ok (set l i new)

-- One holder of a winning ticket.
unfoldable pub award_holder :
    ℕ → ℕ → Dict (ℕ × ℕ) PrizeInfo → Addr → Result (Dict (ℕ × ℕ) PrizeInfo)
unfolding bump
award_holder lottery_id matches prizes winner =
    let old : PrizeInfo =
      or_default (record { claimed = false; matches = zeros })
        (lookup (lottery_id, winner) prizes) in
    do
      counts ← bump old.matches matches 1
      ok (insert (lottery_id, winner) (record old { matches = counts }) prizes)

unfoldable pub award_holders :
    ℕ → ℕ → List Addr → Dict (ℕ × ℕ) PrizeInfo → Result (Dict (ℕ × ℕ) PrizeInfo)
unfolding award_holder
award_holders lottery_id matches [] prizes = ok prizes
award_holders lottery_id matches (w ∷ ws) prizes = do
  prizes1 ← award_holder lottery_id matches prizes w
  award_holders lottery_id matches ws prizes1

-- The winning tickets of a page: the numbers of winners, and the prizes.
unfoldable pub award_tickets :
    ℕ
    → Ticket
    → Dict Ticket (List Addr)
    → List ℕ
    → Dict (ℕ × ℕ) PrizeInfo
    → Result (List ℕ × Dict (ℕ × ℕ) PrizeInfo)
unfolding count_seq_matches bump award_holders
award_tickets lottery_id sequence [] winners prizes = ok (winners, prizes)
award_tickets lottery_id sequence ((ticket, holders) ∷ page) winners prizes = do
  matches ← count_seq_matches sequence ticket
  winners1 ← bump winners matches (length holders)
  prizes1 ← award_holders lottery_id matches holders prizes
  award_tickets lottery_id sequence page winners1 prizes1

-- Where the next page begins, or that there is none.
abbrev pub turn_page : LotteryInfo → Dict Ticket (List Addr) → LotteryInfo
turn_page lottery [] = record lottery { awarded = true }
turn_page lottery ((k, v) ∷ d) = record lottery { page = k }

-- One page of winning tickets.
unfoldable pub award_page :
    Store
    → LotteryInfo
    → Dict Ticket (List Addr)
    → Ticket
    → Result (LotteryInfo × Dict (ℕ × ℕ) PrizeInfo)
unfolding range award_tickets
award_page s lottery [] max_bound = ok (record lottery { awarded = true }, s.prizes)
award_page s lottery ((k, v) ∷ page) max_bound =
    let turned = turn_page lottery (range false (last_key k page) max_bound s.tickets) in
    do
      (winners, prizes) ←
          award_tickets s.state.current_lottery lottery.sequence ((k, v) ∷ page)
            lottery.number_winners s.prizes
      ok (record turned { number_winners = winners }, prizes)

-- The buckets when the lottery closes: those of the state, the prizes and the GLOW of the lottery,
-- and what goes to the reserve and to the winners.
pub record Closing : Type 0 where
  pub state_buckets : List ℕ
  pub lottery_buckets : List ℕ
  pub glow_buckets : List ℕ
  pub reserve : ℕ
  pub total_awarded : ℕ

module _ (p : Platform) where
  open p use {
    add, sub, mul_dec, seconds, minus_seconds, is_expired, add_duration, mul_duration, randomness,
    hex_encode,
  }

  -- The loop over the ranks, with `reserve` and `total` as they stand before it. The arrays have
  -- one length; an index past the end of one is a panic.
  unfoldable pub close_buckets :
      ℕ → List ℕ → List ℕ → List ℕ → List ℕ → List ℕ → ℕ → ℕ → Result Closing
  close_buckets fee [] bs ls gs cs reserve total = ok (record {
    state_buckets = bs;
    lottery_buckets = ls;
    glow_buckets = gs;
    reserve = reserve;
    total_awarded = total;
  })
  close_buckets fee (rank ∷ ranks) (b ∷ bs) (l ∷ ls) (g ∷ gs) (c ∷ cs) reserve total =
      let skip = do
        r ← close_buckets fee ranks bs ls gs cs reserve total
        ok (record r {
          state_buckets = b ∷ r.state_buckets;
          lottery_buckets = l ∷ r.lottery_buckets;
          glow_buckets = g ∷ r.glow_buckets;
        })
      in let award = do
        local_reserve_fee ← mul_dec b fee
        awarded ← sub b local_reserve_fee
        reserve1 ← add reserve local_reserve_fee
        total1 ← add total awarded
        r ← close_buckets fee ranks bs ls gs cs reserve1 total1
        ok (record r {
          state_buckets = 0 ∷ r.state_buckets;
          lottery_buckets = awarded ∷ r.lottery_buckets;
          glow_buckets = c ∷ r.glow_buckets;
        })
        in if nat_beq rank 0 then skip else award
  close_buckets fee (rank ∷ ranks) bs ls gs cs reserve total = err panic

  -- The next time of the lottery: the first one after now, in whole intervals.
  unfoldable pub next_time : Expiration → Duration → Env → Result Expiration
  next_time (at_time t) (time interval) env = do
    since ← minus_seconds env.block.block_time (seconds t)
    fail_if (nat_beq interval 0) panic
    duration ← mul_duration (time interval) (1 + seconds since / interval)
    add_duration (at_time t) duration
  next_time (at_time t) (height h) env = do
    since ← minus_seconds env.block.block_time (seconds t)
    err (lotto invalid_lottery_interval)
  next_time (at_height h) interval env = err (lotto invalid_lottery_next_time)
  next_time never interval env = err (lotto invalid_lottery_next_time)

  -- What happens when all winners are counted.
  unfoldable pub close_lottery : Config → Env → State → LotteryInfo → Result (State × LotteryInfo)
  unfolding close_buckets next_time
  close_lottery config env state lottery = do
    closing ←
        close_buckets config.reserve_factor lottery.number_winners state.prize_buckets
          lottery.prize_buckets lottery.glow_prize_buckets config.glow_prize_buckets
          state.total_reserve 0
    current ← checked 64 (state.current_lottery + 1)
    next ← next_time state.next_lottery_time config.lottery_interval env
    ok (
      record state {
        prize_buckets = closing.state_buckets;
        total_reserve = closing.reserve;
        current_lottery = current;
        next_lottery_time = next;
        next_lottery_exec_time = never;
      },
      record lottery {
        prize_buckets = closing.lottery_buckets;
        glow_prize_buckets = closing.glow_buckets;
      },
    )

  -- The winning sequence: drawn from the oracle the first time.
  unfoldable pub drawn_sequence : Config → LotteryInfo → Result Ticket
  unfolding sequence_from_hash
  drawn_sequence config lottery =
      let draw = do
        random ← randomness config.oracle_contract lottery.rand_round
        sequence_from_hash (hex_encode random)
      in if nat_beq (length lottery.sequence) 0 then draw else ok lottery.sequence

  unfoldable pub execute_prize : Store → Env → MessageInfo → Option ℕ → Result (Store × List Msg)
  unfolding read_lottery_info store_lottery_info drawn_sequence
      get_minimum_matches_for_winning_ticket calculate_max_bound range award_page close_lottery
  execute_prize s env info limit = do
    let lottery0 = read_lottery_info s s.state.current_lottery
    fail_if (not (no_funds info.funds)) (lotto invalid_lottery_prize_execution_funds)
    fail_if (nat_beq lottery0.rand_round 0) (lotto invalid_lottery_prize_execution)
    fail_if (not (is_expired s.state.next_lottery_exec_time env.block))
        (lotto invalid_lottery_prize_execution_expired)
    sequence ← drawn_sequence s.config lottery0
    minimum ← get_minimum_matches_for_winning_ticket s.config.prize_distribution
    start ← prefix minimum sequence
    let min_bound = if nat_beq (length lottery0.page) 0 then start else lottery0.page
    max_bound ← calculate_max_bound min_bound minimum
    let page = take (or_default 50 limit) (range true min_bound max_bound s.tickets)
    let lottery1 : LotteryInfo = record lottery0 { sequence = sequence }
    (lottery2, prizes) ← award_page s lottery1 page max_bound
    (state3, lottery3) ←
        if lottery2.awarded
        then close_lottery s.config env s.state lottery2
        else ok (s.state, lottery2)
    let s3 = store_lottery_info s s.state.current_lottery lottery3
    ok (record s3 { state = state3; prizes = prizes }, [])
