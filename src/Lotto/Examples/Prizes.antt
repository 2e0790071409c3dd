-- ===== src/Lotto/Examples/Prizes.antt =====
-- The theorems on prizes, at a small page, a closing lottery and a claim.
use glow_contracts.Base.{
  ℕ, ◌+◌, ◌*◌, ◌≤◌, ◌<◌, ◌≡◌, ◌≢◌, ◌↔◌, refl, List, [], ◌∷◌, Result, ok, err, at_time, time, arith,
  true, false, none, some, or_default, pair_eq,
}
use glow_contracts.Dict.{Dict, lookup}
use glow_contracts.Tax.{deduct_tax}
use glow_contracts.Lotto.Types.{Store, Env, Msg, Addr, Ticket, PrizeInfo, LotteryInfo}
use glow_contracts.Lotto.Storage.{
  zeros, no_lottery, read_lottery_info, read_depositor_stats_at_height,
}
use glow_contracts.Lotto.Prize.{
  Closing, close_buckets, next_time, in_range, calculate_max_bound, count_seq_matches,
  award_tickets,
}
use glow_contracts.Lotto.Prize.Schedule.{next_time_lem}
use glow_contracts.Lotto.Prize.Buckets.{IsConserved, close_buckets-sum}
use glow_contracts.Lotto.Prize.Range.{winning_range_lem}
use glow_contracts.Lotto.Prize.Winners.{Awarded, award_tickets_lem}
use glow_contracts.Lotto.Claims.{calculate_boost_multiplier, execute_claim_lottery}
use glow_contracts.Lotto.Claims.Boost.{calculate_boost_multiplier_bounds}
use glow_contracts.Lotto.Claims.Runs.{times, here, steps, execute_claim_lottery-once}
use glow_contracts.Lotto.Steps.{sponsors}
use glow_contracts.Lotto.Sponsor.{execute_sponsor}
use glow_contracts.Lotto.Rewards.{
  compute_global_sponsor_reward, compute_global_reward, compute_sponsor_reward,
}
use glow_contracts.Platform.Testnet.{testnet}
use glow_contracts.Lotto.Examples.Scenario.{
  genesis, config, env, next_env, sends, state_after, msgs_after,
}

abbrev value_or {ℓ} : {A : Type ℓ} → A → Result A → A
value_or d (ok a) = a
value_or d (err e) = d

-- Ten seconds more than a week after the lottery was due.
abbrev late : Env
late = record {
  block = record { block_height = 200; block_time = 1_304_810_000_000_000 };
  contract = 9;
}

next_run :
    next_time testnet (at_time 700_000_000_000_000) (time 604_800) late
    ≡ ok (at_time 1_909_600_000_000_000)
unfolding next_time
next_run = refl

next_time_lem_example :
    (k : ℕ) × (at_time 1_909_600_000_000_000
      ≡ at_time (700_000_000_000_000 + 604_800 * (1 + k) * 1_000_000_000))
    × (late.block.block_time < 700_000_000_000_000 + 604_800 * (1 + k) * 1_000_000_000)
    × (700_000_000_000_000 + 604_800 * (1 + k) * 1_000_000_000
        < late.block.block_time + 604_800 * 1_000_000_000 + 1_000_000_000)
next_time_lem_example =
    next_time_lem testnet 700_000_000_000_000 604_800 late (at_time 1_909_600_000_000_000) next_run

abbrev nothing_closed : Closing
nothing_closed = record {
  state_buckets = [];
  lottery_buckets = [];
  glow_buckets = [];
  reserve = 0;
  total_awarded = 0;
}

abbrev closing : Result Closing
closing =
    close_buckets testnet config.reserve_factor (0 ∷ 2 ∷ []) (50 ∷ 100 ∷ []) (0 ∷ 0 ∷ [])
      (0 ∷ 0 ∷ []) (7 ∷ 8 ∷ []) 3 0

closing_run : closing ≡ ok (value_or nothing_closed closing)
unfolding close_buckets
closing_run = refl

close_buckets-sum_example :
    IsConserved (50 ∷ 100 ∷ []) (0 ∷ 0 ∷ []) 3 0 (value_or nothing_closed closing)
close_buckets-sum_example =
    close_buckets-sum testnet config.reserve_factor (0 ∷ 2 ∷ []) (50 ∷ 100 ∷ []) (0 ∷ 0 ∷ [])
      (0 ∷ 0 ∷ []) (7 ∷ 8 ∷ []) 3 0 (value_or nothing_closed closing) closing_run

abbrev drawn : Ticket
drawn = 97 ∷ 98 ∷ 99 ∷ 48 ∷ 49 ∷ 50 ∷ []

abbrev near : Ticket
near = 97 ∷ 98 ∷ 99 ∷ 102 ∷ 49 ∷ 50 ∷ []

bound_run : calculate_max_bound (97 ∷ 98 ∷ []) 2 ≡ ok (97 ∷ 98 ∷ 102 ∷ 102 ∷ 102 ∷ 102 ∷ [])
unfolding calculate_max_bound
bound_run = refl

count_run : count_seq_matches drawn near ≡ ok 3
unfolding count_seq_matches
count_run = refl

winning_range_lem_example :
    (in_range true (97 ∷ 98 ∷ []) (97 ∷ 98 ∷ 102 ∷ 102 ∷ 102 ∷ 102 ∷ []) near ≡ true) ↔ (2 ≤ 3)
winning_range_lem_example =
    winning_range_lem 2 drawn (97 ∷ 98 ∷ 102 ∷ 102 ∷ 102 ∷ 102 ∷ []) near 3 refl (omega arith)
      bound_run refl refl count_run

abbrev page : Dict Ticket (List Addr)
page = (drawn, 2 ∷ 3 ∷ []) ∷ (near, 2 ∷ []) ∷ []

abbrev awarded : Result (List ℕ × Dict (ℕ × ℕ) PrizeInfo)
awarded = award_tickets 0 drawn page zeros []

abbrev winners : List ℕ × Dict (ℕ × ℕ) PrizeInfo
winners = value_or (zeros, []) awarded

award_run : awarded ≡ ok winners
unfolding award_tickets
award_run = refl

award_tickets_lem_example : Awarded 0 drawn page zeros winners.0 [] winners.1
award_tickets_lem_example = award_tickets_lem 0 drawn page zeros winners.0 [] winners.1 award_run

abbrev boost : Result ℕ
boost = calculate_boost_multiplier testnet config.lotto_winner_boost_config 5 50 1 10

boost_run : boost ≡ ok (value_or 0 boost)
unfolding calculate_boost_multiplier
boost_run = refl

calculate_boost_multiplier_bounds_example :
    (config.lotto_winner_boost_config.base_multiplier ≤ value_or 0 boost)
    × (value_or 0 boost ≤ config.lotto_winner_boost_config.max_multiplier)
calculate_boost_multiplier_bounds_example =
    calculate_boost_multiplier_bounds testnet config.lotto_winner_boost_config 5 50 1 10
      (value_or 0 boost) (omega arith) boost_run

abbrev won_lottery : LotteryInfo
won_lottery = record no_lottery {
  awarded = true;
  prize_buckets = 0 ∷ 0 ∷ 0 ∷ 900 ∷ 0 ∷ 0 ∷ 0 ∷ [];
  number_winners = 0 ∷ 0 ∷ 0 ∷ 3 ∷ 0 ∷ 0 ∷ 0 ∷ [];
  rand_round = 8;
}

abbrev won : Store
won = record genesis {
  state = record genesis.state { current_lottery = 1 };
  lotteries = (0, won_lottery) ∷ [];
  prizes = ((0, 2), record { claimed = false; matches = 0 ∷ 0 ∷ 0 ∷ 2 ∷ 0 ∷ 0 ∷ 0 ∷ [] }) ∷ [];
}

abbrev claim : Result (Store × List Msg)
claim = execute_claim_lottery testnet won env (sends 2 0) (0 ∷ [])

claim_run : claim ≡ ok (state_after claim, msgs_after claim)
unfolding execute_claim_lottery deduct_tax read_lottery_info read_depositor_stats_at_height
claim_run = refl

abbrev sponsored : Result (Store × List Msg)
sponsored = execute_sponsor testnet (state_after claim) next_env (sends 4 10_000_000) none none

sponsored_run : sponsored ≡ ok (state_after sponsored, msgs_after sponsored)
unfolding execute_claim_lottery deduct_tax read_lottery_info read_depositor_stats_at_height
    execute_sponsor compute_global_sponsor_reward compute_global_reward compute_sponsor_reward
sponsored_run = refl

abbrev the_prize : PrizeInfo
the_prize = or_default (record { claimed = true; matches = [] }) (lookup (0, 2) won.prizes)

found : lookup (0, 2) won.prizes ≡ some the_prize
found = refl

execute_claim_lottery-once_example :
    (times 0 (0 ∷ []) ≡ 1)
    × ((r : Store × List Msg)
        → execute_claim_lottery testnet (state_after sponsored) next_env (sends 2 0) (1 ∷ 0 ∷ [])
          ≢ ok r)
execute_claim_lottery-once_example =
    execute_claim_lottery-once testnet testnet won (state_after claim) (state_after sponsored) env
      next_env (sends 2 0) (0 ∷ []) (1 ∷ 0 ∷ []) 0 the_prize (msgs_after claim) claim_run found
      (omega arith)
      (steps here (
        sponsors testnet (state_after claim) (state_after sponsored) next_env (sends 4 10_000_000)
          none none (msgs_after sponsored) sponsored_run))
      (omega arith)
