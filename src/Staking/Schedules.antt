-- ===== src/Staking/Schedules.antt =====
-- The distribution schedules and their replacement (contracts/staking/src/contract.rs).
pub mod Kept
use glow_contracts.Base.{
  ℕ, ◌+◌, ◌-◌, Bool, true, false, ◌&&◌, not, Option, some, none, List, [], ◌∷◌, Result, ok, err,
  std, ◌>>=◌, ◌>>◌, fail_if, nat_eq, ltb, leb, nat_beq, minus, checked, length, or_default, or_fail,
  panic, if◌then◌else◌,
}
use glow_contracts.Dict.{Dict, lookup, insert}
use glow_contracts.Platform.{Platform}
use glow_contracts.Staking.Types.{Config, State, Schedule, schedule_eq}

-- The check that each schedule ends after it starts.
unfoldable pub valid_schedules : List Schedule → Result (Unit {0})
valid_schedules [] = ok tt
valid_schedules ((start, (end, amount)) ∷ l) = do
  fail_if (leb end start) (std "Invalid distribution schedule")
  valid_schedules l

-- How often each schedule occurs.
unfoldable pub count_schedules : Dict Schedule ℕ → List Schedule → Result (Dict Schedule ℕ)
count_schedules counts [] = ok counts
count_schedules counts (s ∷ l) = do
  n ← checked 32 (or_default 0 (lookup s counts) + 1)
  count_schedules (insert s n counts) l

-- A schedule that had started, taken out of the counts of the new ones.
unfoldable pub take_out : Schedule → ℕ → Dict Schedule ℕ → Result (Dict Schedule ℕ)
take_out s count new_counts = do
  fail_if (ltb (or_default 0 (lookup s new_counts)) count)
      (std "The new schedule removes an already started distribution")
  n ← or_fail (lookup s new_counts) panic
  left ← minus n count
  ok (insert s left new_counts)

-- The first loop: the counts of the new schedules without the ones that had started.
unfoldable pub keep_started : ℕ → Dict Schedule ℕ → Dict Schedule ℕ → Result (Dict Schedule ℕ)
unfolding take_out
keep_started last_distributed [] new_counts = ok new_counts
keep_started last_distributed ((s, count) ∷ existing) new_counts = do
  left ← if leb s.0 last_distributed then take_out s count new_counts else ok new_counts
  keep_started last_distributed existing left

-- The second loop: nothing that is left has started.
unfoldable pub none_started : ℕ → Dict Schedule ℕ → Result (Unit {0})
none_started last_distributed [] = ok tt
none_started last_distributed ((s, count) ∷ l) = do
  fail_if (ltb 0 count && leb s.0 last_distributed)
      (std "The new schedule adds an already started distribution")
  none_started last_distributed l

unfoldable pub assert_new_schedules : Config → State → List Schedule → Result (Unit {0})
unfolding count_schedules keep_started none_started
assert_new_schedules config state distribution_schedule = do
  fail_if (ltb (length distribution_schedule) (length config.distribution_schedule))
      (std "The new schedule must support all of the previous schedule")
  existing_counts ← count_schedules [] config.distribution_schedule
  new_counts ← count_schedules [] distribution_schedule
  left ← keep_started state.last_distributed existing_counts new_counts
  none_started state.last_distributed left

module _ (p : Platform) where
  open p use {add128, decimal_from_ratio, mul_decimal}

  -- `retain`: the schedules that have started before a time.
  abbrev pub started : ℕ → List Schedule → List Schedule
  started block_time [] = []
  started block_time (s ∷ l) =
      let rest = started block_time l in if ltb s.0 block_time then s ∷ rest else rest

  -- A schedule cut off at a time, and the amount that it has distributed by then.
  unfoldable pub settle_slot : ℕ → Schedule → Result (Schedule × ℕ)
  settle_slot block_time (start, (end, amount)) =
      if ltb end block_time then ok ((start, (end, amount)), amount) else do
        total_time ← minus end start
        distribution_amount_per_second ← decimal_from_ratio amount total_time
        time_elapsed ← minus block_time start
        on_slot ← mul_decimal time_elapsed distribution_amount_per_second
        ok ((start, (block_time, on_slot)), on_slot)

  unfoldable pub settle : ℕ → ℕ → List Schedule → Result (List Schedule × ℕ)
  unfolding settle_slot
  settle block_time distributed_amount [] = ok ([], distributed_amount)
  settle block_time distributed_amount (s ∷ l) = do
    (slot, amount) ← settle_slot block_time s
    sum ← add128 distributed_amount amount
    (rest, total) ← settle block_time sum l
    ok (slot ∷ rest, total)
