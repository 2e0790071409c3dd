-- ===== src/Lotto/Withdraw.antt =====
-- Withdrawals, instant or by an unbonding claim (contracts/lotto/src/contract.rs and helpers.rs).
pub mod Parts
pub mod Effects
pub mod Accounting
pub mod Balance
use glow_contracts.Base.{
  ℕ, ◌+◌, ◌-◌, ◌%◌, Bool, true, false, not, Option, none, some, List, [], ◌∷◌, ◌++◌, Result, ok,
  err, panic, lotto, ◌>>=◌, ◌>>◌, fail_if, or_fail, nat_beq, leb, ltb, max, length, take, drop,
  text_eq, if◌then◌else◌, no_depositor_savings_aust_to_withdraw, specified_withdraw_amount_is_zero,
  specified_withdraw_amount_too_big, withdrawing_too_many_tickets, max_unbonding_claims,
  insufficient_claimable_funds, insufficient_funds, lottery_already_started, Block, Expiration,
  Duration,
}
use glow_contracts.Dict.{lookup, insert_in_order}
use glow_contracts.Platform.{Platform}
use glow_contracts.Tax.{deduct_tax}
use glow_contracts.Lotto.Types.{
  Store, State, Pool, Config, DepositorInfo, Addr, Env, MessageInfo, Coin, Msg, Claim, Ticket,
  OperatorInfo, redeem_stable, bank_send,
}
use glow_contracts.Lotto.Storage.{
  read_depositor_info, store_depositor_info, operator_registered, read_operator_info,
  store_operator_info,
}
use glow_contracts.Lotto.Rewards.{compute_global_operator_reward, compute_operator_reward}
use glow_contracts.Lotto.Tickets.{text_before}
use glow_contracts.Lotto.Deposit.{decimal_from_ratio_or_one, check_not_started}

abbrev pub max_claims : ℕ
max_claims = 15

-- The holders without the first occurrence of an address; nothing if it is not among them.
unfoldable pub remove_holder : Addr → List Addr → Option (List Addr)
remove_holder a [] = none
remove_holder a (b ∷ bs) =
    if nat_beq b a
    then some bs
    else elim (remove_holder a bs) [ none ↦ none | some r ↦ some (b ∷ r) ]

-- The tickets that are given back lose the sender as a holder.
unfoldable pub release_tickets : Addr → List Ticket → Store → Result Store
unfolding remove_holder
release_tickets sender [] s = ok s
release_tickets sender (t ∷ ts) s = do
  holders ← or_fail (lookup t s.tickets) panic
  rest ← or_fail (remove_holder sender holders) panic
  release_tickets sender ts (record s { tickets = insert_in_order text_before t rest s.tickets })

module _ (p : Platform) where
  open p use {
    add, sub, mul_dec, div_dec, dec_from_uint, dec_from_ratio, multiply_ratio, to_uint128,
    exchange_rate, after, is_expired, add128, bank_balance,
  }

  abbrev pub check_amount : Option ℕ → Result (Unit {0})
  check_amount none = ok tt
  check_amount (some amount) = fail_if (nat_beq amount 0) (lotto specified_withdraw_amount_is_zero)

  -- The shares to withdraw: at least one for an amount, or all of them.
  unfoldable pub shares_to_withdraw : Pool → DepositorInfo → ℕ → Option ℕ → Result ℕ
  shares_to_withdraw pool i rate none = ok i.shares
  shares_to_withdraw pool i rate (some amount) = do
    aust ← div_dec amount rate
    shares ← multiply_ratio aust pool.total_user_shares pool.total_user_aust
    ok (max shares 1)

  -- The aUST that the shares are worth and its value, which is refused above the balance.
  unfoldable pub value_to_withdraw : Pool → DepositorInfo → ℕ → ℕ → Result (ℕ × ℕ)
  value_to_withdraw pool i rate withdrawn_shares = do
    withdrawn_aust ← multiply_ratio withdrawn_shares pool.total_user_aust pool.total_user_shares
    withdrawn_aust_value ← mul_dec withdrawn_aust rate
    ratio ← dec_from_ratio i.shares pool.total_user_shares
    depositor_balance ← mul_dec (← mul_dec pool.total_user_aust ratio) rate
    let refuse = do
      amount ← to_uint128 withdrawn_aust_value
      err (lotto (specified_withdraw_amount_too_big amount depositor_balance))
    if ltb depositor_balance withdrawn_aust_value
        then refuse
        else ok (withdrawn_aust, withdrawn_aust_value)

  -- How many tickets the balance after the withdrawal does not pay for.
  unfoldable pub tickets_to_withdraw : Config → Pool → DepositorInfo → ℕ → ℕ → ℕ → Result ℕ
  unfolding decimal_from_ratio_or_one
  tickets_to_withdraw config pool i rate withdrawn_shares withdrawn_aust = do
    aust ← sub pool.total_user_aust withdrawn_aust
    shares ← sub i.shares withdrawn_shares
    total_shares ← sub pool.total_user_shares withdrawn_shares
    ratio ← decimal_from_ratio_or_one p shares total_shares
    balance ← mul_dec (← mul_dec aust ratio) rate
    affordable ← to_uint128 (← div_dec balance (← dec_from_uint config.ticket_price))
    let count = length i.tickets
    let withdrawn = count - affordable
    fail_if (ltb count withdrawn) (lotto (withdrawing_too_many_tickets withdrawn count))
    ok withdrawn

  -- The operator, if there is one, gives up the shares.
  unfoldable pub shrink_operator :
      Store → State → Pool → DepositorInfo → ℕ → ℕ → Result (Store × (State × Pool))
  unfolding operator_registered read_operator_info store_operator_info
  shrink_operator s state pool i withdrawn_shares height =
      if operator_registered i
      then (do
        state1 ← compute_global_operator_reward p state pool height
        o ← compute_operator_reward p state1 (read_operator_info s i.operator_addr)
        shares ← sub o.shares withdrawn_shares
        total ← sub pool.total_operator_shares withdrawn_shares
        ok (
          store_operator_info s i.operator_addr (record o { shares = shares }),
          (state1, record pool { total_operator_shares = total }),
        ))
      else ok (s, (state, pool))

  -- The depositor's information, the pool and the state without what is withdrawn.
  unfoldable pub debit :
      DepositorInfo → Pool → State → ℕ → ℕ → ℕ → Result (DepositorInfo × (Pool × State))
  debit i pool state withdrawn_shares withdrawn_aust withdrawn_tickets = do
    shares ← sub i.shares withdrawn_shares
    total_shares ← sub pool.total_user_shares withdrawn_shares
    total_aust ← sub pool.total_user_aust withdrawn_aust
    total_tickets ← sub state.total_tickets withdrawn_tickets
    ok (
      record i { shares = shares; tickets = drop withdrawn_tickets i.tickets },
      (
        record pool { total_user_shares = total_shares; total_user_aust = total_aust },
        record state { total_tickets = total_tickets },
      ),
    )

  -- Pays at once, less the fee that goes to the reserve, or adds a claim to be paid later.
  unfoldable pub pay_out :
      Config
      → Env
      → Addr
      → Bool
      → ℕ
      → DepositorInfo
      → State
      → Result (DepositorInfo × (State × List Msg))
  pay_out config env sender true return_amount i state = do
    withdrawal_fee ← mul_dec return_amount config.instant_withdrawal_fee
    rest ← sub return_amount withdrawal_fee
    reserve ← add state.total_reserve withdrawal_fee
    coin_amount ← to_uint128 rest
    net ← deduct_tax p config.stable_denom coin_amount
    let sent : Coin = record { denom = config.stable_denom; coin_amount = net }
    ok (i, (record state { total_reserve = reserve }, bank_send sender sent ∷ []))
  pay_out config env sender false return_amount i state = do
    fail_if (leb max_claims (length i.unbonding_info % 256)) (lotto max_unbonding_claims)
    let claim : Claim = record {
      amount = return_amount;
      release_at = after config.unbonding_period env.block;
    }
    ok (record i { unbonding_info = i.unbonding_info ++ claim ∷ [] }, (state, []))

  abbrev pub is_instant : Option Bool → Bool
  is_instant none = false
  is_instant (some b) = b

  unfoldable pub execute_withdraw :
      Store → Env → MessageInfo → Option ℕ → Option Bool → Result (Store × List Msg)
  unfolding check_not_started shares_to_withdraw value_to_withdraw tickets_to_withdraw
      release_tickets shrink_operator debit pay_out
  execute_withdraw s env info amount instant = do
    let i = read_depositor_info p s info.sender
    rate ← exchange_rate s.config.anchor_contract env.block.block_height
    fail_if (nat_beq i.shares 0) (lotto no_depositor_savings_aust_to_withdraw)
    check_amount amount
    check_not_started s
    withdrawn_shares ← shares_to_withdraw s.pool i rate amount
    (withdrawn_aust, value) ← value_to_withdraw s.pool i rate withdrawn_shares
    withdrawn_tickets ← tickets_to_withdraw s.config s.pool i rate withdrawn_shares withdrawn_aust
    s1 ← release_tickets info.sender (take withdrawn_tickets i.tickets) s
    (s2, (state2, pool2)) ←
        shrink_operator s1 s.state s.pool i withdrawn_shares env.block.block_height
    (i3, (pool3, state3)) ← debit i pool2 state2 withdrawn_shares withdrawn_aust withdrawn_tickets
    coin_value ← to_uint128 value
    return_amount ← deduct_tax p s.config.stable_denom coin_value
    redeemed ← to_uint128 withdrawn_aust
    (i4, (state4, msgs)) ←
        pay_out s.config env info.sender (is_instant instant) return_amount i3 state3
    s4 ← store_depositor_info p s2 info.sender i4 env.block.block_height
    ok (
      record s4 { state = state4; pool = pool3 },
      redeem_stable s.config.a_terra_contract s.config.anchor_contract redeemed ∷ msgs,
    )
