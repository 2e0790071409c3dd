-- ===== src/Lotto/Sponsor.antt =====
-- Sponsorships (contracts/lotto/src/contract.rs).
pub mod Balance
use glow_contracts.Base.{
  ℕ, Bool, false, not, Option, none, some, List, [], ◌∷◌, Result, ok, err, panic, lotto, ◌>>=◌,
  ◌>>◌, fail_if, nat_beq, length, if◌then◌else◌, zero_sponsorship_amount,
  invalid_prize_distribution, no_sponsor_lottery_deposit,
}
use glow_contracts.Platform.{Platform}
use glow_contracts.Tax.{deduct_tax}
use glow_contracts.Lotto.Types.{
  Store, State, Pool, Env, MessageInfo, Coin, Msg, deposit_stable, redeem_stable, bank_send,
  num_prize_buckets,
}
use glow_contracts.Lotto.Storage.{read_sponsor_info, store_sponsor_info, or_default}
use glow_contracts.Lotto.Rewards.{compute_global_sponsor_reward, compute_sponsor_reward}
use glow_contracts.Lotto.Deposit.{amount_sent, check_not_started}

module _ (p : Platform) where
  open p use {add, sub, mul_dec, div_dec, dec_add, one, exchange_rate}

  unfoldable pub sum_decimals : ℕ → List ℕ → Result ℕ
  sum_decimals acc [] = ok acc
  sum_decimals acc (d ∷ ds) = do total ← dec_add acc d; sum_decimals total ds

  -- Validation that a prize distribution has one fraction for each bucket and sums to one.
  unfoldable pub check_distribution : List ℕ → Result (Unit {0})
  unfolding sum_decimals
  check_distribution fractions = do
    fail_if (not (nat_beq (length fractions) num_prize_buckets)) (lotto invalid_prize_distribution)
    total ← sum_decimals 0 fractions
    fail_if (not (nat_beq total one)) (lotto invalid_prize_distribution)

  -- An amount is shared out among the buckets by the fractions; a fraction without a bucket is an
  -- index out of range.
  unfoldable pub fill_buckets : ℕ → List ℕ → List ℕ → Result (List ℕ)
  fill_buckets amount [] buckets = ok buckets
  fill_buckets amount (d ∷ ds) [] = err panic
  fill_buckets amount (d ∷ ds) (b ∷ bs) = do
    part ← mul_dec amount d
    total ← add b part
    rest ← fill_buckets amount ds bs
    ok (total ∷ rest)

  -- A sponsorship that goes to Anchor.
  unfoldable pub sponsor_deposit :
      Store → State → Env → MessageInfo → ℕ → Option (List ℕ) → Result (Store × List Msg)
  unfolding read_sponsor_info store_sponsor_info
  sponsor_deposit s state env info sponsor_amount (some distribution) =
      err (lotto invalid_prize_distribution)
  sponsor_deposit s state env info sponsor_amount none = do
    net_sponsor_amount ← deduct_tax p s.config.stable_denom sponsor_amount
    rate ← exchange_rate s.config.anchor_contract env.block.block_height
    minted_aust ← div_dec net_sponsor_amount rate
    minted_aust_value ← mul_dec minted_aust rate
    i ← compute_sponsor_reward p state (read_sponsor_info s info.sender)
    lottery_deposit ← add i.lottery_deposit minted_aust_value
    total ← add s.pool.total_sponsor_lottery_deposits minted_aust_value
    let s1 = store_sponsor_info s info.sender (record i { lottery_deposit = lottery_deposit })
    let pool1 : Pool = record s.pool { total_sponsor_lottery_deposits = total }
    let sent : Coin = record { denom = s.config.stable_denom; coin_amount = net_sponsor_amount }
    ok (
      record s1 { state = state; pool = pool1 },
      deposit_stable s.config.anchor_contract sent ∷ [],
    )

  -- A sponsorship that goes to the prize buckets at once.
  unfoldable pub sponsor_award : Store → State → ℕ → Option (List ℕ) → Result (Store × List Msg)
  unfolding check_distribution fill_buckets
  sponsor_award s state sponsor_amount distribution = do
    let fractions = or_default s.config.prize_distribution distribution
    check_distribution fractions
    buckets ← fill_buckets sponsor_amount fractions state.prize_buckets
    let state1 : State = record state { prize_buckets = buckets }
    ok (record s { state = state1 }, [])

  unfoldable pub execute_sponsor :
      Store → Env → MessageInfo → Option Bool → Option (List ℕ) → Result (Store × List Msg)
  unfolding amount_sent sponsor_deposit sponsor_award
  execute_sponsor s env info award distribution = do
    let sponsor_amount = amount_sent s.config.stable_denom info.funds
    fail_if (nat_beq sponsor_amount 0) (lotto zero_sponsorship_amount)
    state ← compute_global_sponsor_reward p s.state s.pool env.block.block_height
    if or_default false award
        then sponsor_award s state sponsor_amount distribution
        else sponsor_deposit s state env info sponsor_amount distribution

  unfoldable pub execute_sponsor_withdraw : Store → Env → MessageInfo → Result (Store × List Msg)
  unfolding check_not_started read_sponsor_info store_sponsor_info
  execute_sponsor_withdraw s env info = do
    rate ← exchange_rate s.config.anchor_contract env.block.block_height
    let i = read_sponsor_info s info.sender
    fail_if (nat_beq i.lottery_deposit 0) (lotto no_sponsor_lottery_deposit)
    check_not_started s
    state ← compute_global_sponsor_reward p s.state s.pool env.block.block_height
    i1 ← compute_sponsor_reward p state i
    aust_to_redeem ← div_dec i1.lottery_deposit rate
    aust_to_redeem_value ← mul_dec aust_to_redeem rate
    total ← sub s.pool.total_sponsor_lottery_deposits i1.lottery_deposit
    coin_amount ← deduct_tax p s.config.stable_denom aust_to_redeem_value
    net_coin_amount ← deduct_tax p s.config.stable_denom coin_amount
    let pool1 : Pool = record s.pool { total_sponsor_lottery_deposits = total }
    let s1 = store_sponsor_info s info.sender (record i1 { lottery_deposit = 0 })
    let sent : Coin = record { denom = s.config.stable_denom; coin_amount = net_coin_amount }
    ok (
      record s1 { state = state; pool = pool1 },
      redeem_stable s.config.a_terra_contract s.config.anchor_contract aust_to_redeem
          ∷ bank_send info.sender sent
          ∷ [],
    )
