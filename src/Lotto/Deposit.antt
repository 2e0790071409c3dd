-- ===== src/Lotto/Deposit.antt =====
-- Deposits, gifts and the claim of tickets (contracts/lotto/src/contract.rs).
pub mod Effects
pub mod Accounting
pub mod Balance
pub mod Fairness
pub mod Claim
use glow_contracts.Base.{
  ℕ, Bool, true, false, not, Option, none, some, List, [], ◌∷◌, Result, ok, err, lotto, ◌>>=◌, ◌>>◌,
  fail_if, nat_beq, lottery_already_started, zero_gift_amount, zero_deposit_amount, gift_to_self,
  ◌&&◌, if◌then◌else◌,
}
use glow_contracts.Platform.{Platform}
use glow_contracts.Tax.{deduct_tax}
use glow_contracts.Lotto.Types.{
  Store, State, Pool, Config, DepositorInfo, Addr, Env, MessageInfo, Coin, Msg, deposit_stable,
}
use glow_contracts.Lotto.Storage.{read_lottery_info, read_depositor_info, store_depositor_info}
use glow_contracts.Lotto.Rewards.{compute_global_operator_reward}
use glow_contracts.Lotto.Tickets.{handle_depositor_ticket_updates}
use glow_contracts.Lotto.Operators.{handle_depositor_operator_updates}

-- The amount of the first coin of a denomination among the funds sent.
unfoldable pub amount_sent : ℕ → List Coin → ℕ
amount_sent denom [] = 0
amount_sent denom (c ∷ cs) = if nat_beq c.denom denom then c.coin_amount else amount_sent denom cs

-- Validation that the current lottery has not started.
unfoldable pub check_not_started : Store → Result (Unit {0})
unfolding read_lottery_info
check_not_started s =
    fail_if (not (nat_beq (read_lottery_info s s.state.current_lottery).rand_round 0))
      (lotto lottery_already_started)

module _ (p : Platform) where
  open p use {add, mul_dec, div_dec, dec_from_ratio, one, exchange_rate, addr_validate}

  unfoldable pub decimal_from_ratio_or_one : ℕ → ℕ → Result ℕ
  decimal_from_ratio_or_one a b = if nat_beq a 0 && nat_beq b 0 then ok one else dec_from_ratio a b

  -- The depositor: the recipient of a gift, or the sender.
  unfoldable pub depositor_of : MessageInfo → Option Addr → Result Addr
  depositor_of info none = ok info.sender
  depositor_of info (some recipient) = addr_validate recipient

  abbrev pub zero_amount : Option Addr → Result (Unit {0})
  zero_amount none = err (lotto zero_deposit_amount)
  zero_amount (some recipient) = err (lotto zero_gift_amount)

  -- The aUST and the shares that an amount after tax is worth.
  unfoldable pub minted : Pool → ℕ → ℕ → Result (ℕ × ℕ)
  unfolding decimal_from_ratio_or_one
  minted pool post_tax_deposit_amount aust_exchange_rate = do
    minted_aust ← div_dec post_tax_deposit_amount aust_exchange_rate
    ratio ← decimal_from_ratio_or_one pool.total_user_shares pool.total_user_aust
    minted_shares ← mul_dec minted_aust ratio
    ok (minted_aust, minted_shares)

  -- The depositor's information and the pool after the shares are credited.
  unfoldable pub credit : DepositorInfo → Pool → ℕ → ℕ → Result (DepositorInfo × Pool)
  credit i pool minted_aust minted_shares = do
    shares ← add i.shares minted_shares
    total_shares ← add pool.total_user_shares minted_shares
    total_aust ← add pool.total_user_aust minted_aust
    ok (
      record i { shares = shares },
      record pool { total_user_shares = total_shares; total_user_aust = total_aust },
    )

  unfoldable pub deposit :
      Store → Env → MessageInfo → Option Addr → Option Addr → ℕ → Result (Store × List Msg)
  unfolding amount_sent check_not_started depositor_of minted credit
  deposit s env info recipient new_operator_addr encoded_tickets = do
    aust_exchange_rate ← exchange_rate s.config.anchor_contract env.block.block_height
    check_not_started s
    let deposit_amount = amount_sent s.config.stable_denom info.funds
    depositor ← depositor_of info recipient
    let i = read_depositor_info p s depositor
    if nat_beq deposit_amount 0 then zero_amount recipient else ok tt
    post_tax_deposit_amount ← deduct_tax p s.config.stable_denom deposit_amount
    (minted_aust, minted_shares) ← minted s.pool post_tax_deposit_amount aust_exchange_rate
    (s1, (i1, number_of_new_tickets)) ←
        handle_depositor_ticket_updates p env s.config s.pool depositor i encoded_tickets
          aust_exchange_rate minted_shares minted_aust s
    state1 ← compute_global_operator_reward p s.state s.pool env.block.block_height
    (s2, (pool2, i2)) ←
        handle_depositor_operator_updates p s1 state1 s.pool depositor i1 minted_shares
          new_operator_addr
    (i3, pool3) ← credit i2 pool2 minted_aust minted_shares
    total_tickets ← add state1.total_tickets number_of_new_tickets
    s3 ← store_depositor_info p s2 depositor i3 env.block.block_height
    let state3 : State = record state1 { total_tickets = total_tickets }
    let sent : Coin = record {
      denom = s.config.stable_denom;
      coin_amount = post_tax_deposit_amount;
    }
    ok (
      record s3 { state = state3; pool = pool3 },
      deposit_stable s.config.anchor_contract sent ∷ [],
    )

  unfoldable pub execute_deposit :
      Store → Env → MessageInfo → ℕ → Option Addr → Result (Store × List Msg)
  unfolding deposit
  execute_deposit s env info encoded_tickets operator_addr =
      deposit s env info none operator_addr encoded_tickets

  unfoldable pub execute_gift :
      Store → Env → MessageInfo → ℕ → Addr → Option Addr → Result (Store × List Msg)
  unfolding deposit
  execute_gift s env info encoded_tickets to operator_addr = do
    fail_if (nat_beq to info.sender) (lotto gift_to_self)
    deposit s env info (some to) operator_addr encoded_tickets

  unfoldable pub execute_claim_tickets : Store → Env → MessageInfo → ℕ → Result (Store × List Msg)
  unfolding check_not_started
  execute_claim_tickets s env info encoded_tickets = do
    let i = read_depositor_info p s info.sender
    aust_exchange_rate ← exchange_rate s.config.anchor_contract env.block.block_height
    check_not_started s
    (s1, (i1, number_of_new_tickets)) ←
        handle_depositor_ticket_updates p env s.config s.pool info.sender i encoded_tickets
          aust_exchange_rate 0 0 s
    s2 ← store_depositor_info p s1 info.sender i1 env.block.block_height
    ok (s2, [])
