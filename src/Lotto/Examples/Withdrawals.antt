-- ===== src/Lotto/Examples/Withdrawals.antt =====
-- The theorems on withdrawals, at withdrawals from the state after a deposit of 25 coins.
use glow_contracts.Base.{List, none, some, Result, ok, ◌≡◌, refl, ◌≤◌, ◌*◌}
use glow_contracts.Tax.{deduct_tax}
use glow_contracts.Lotto.Types.{Store, Msg}
use glow_contracts.Lotto.Storage.{read_depositor_info, store_depositor_info}
use glow_contracts.Lotto.Rewards.{
  compute_global_operator_reward, compute_global_reward, compute_operator_reward,
}
use glow_contracts.Lotto.Operators.{handle_depositor_operator_updates}
use glow_contracts.Lotto.Tickets.{handle_depositor_ticket_updates}
use glow_contracts.Lotto.Books.{IsBalanced}
use glow_contracts.Lotto.Deposit.{execute_deposit}
use glow_contracts.Lotto.Deposit.Balance.{execute_deposit-IsBalanced}
use glow_contracts.Lotto.Withdraw.{execute_withdraw}
use glow_contracts.Lotto.Withdraw.Effects.{Withdrawn}
use glow_contracts.Lotto.Withdraw.Accounting.{execute_withdraw-Withdrawn}
use glow_contracts.Lotto.Withdraw.Balance.{execute_withdraw-IsBalanced, execute_withdraw-fair}
use glow_contracts.Lotto.Steps.{Reach, here, next, deposits, withdraws}
use glow_contracts.Lotto.Steps.Balance.{Reach-IsBalanced}
use glow_contracts.Platform.Testnet.{testnet}
use glow_contracts.Lotto.Examples.Scenario.{genesis, env, next_env, sends, state_after, msgs_after}
use glow_contracts.Lotto.Examples.Deposits.{after_deposit, genesis-IsBalanced, deposit_run}

abbrev withdrawn : Result (Store × List Msg)
withdrawn = execute_withdraw testnet after_deposit next_env (sends 2 0) (some 20_000_000) none

abbrev after_withdrawal : Store
after_withdrawal = state_after withdrawn

abbrev withdrawal_msgs : List Msg
withdrawal_msgs = msgs_after withdrawn

withdrawal_run : withdrawn ≡ ok (after_withdrawal, withdrawal_msgs)
unfolding execute_deposit execute_withdraw deduct_tax handle_depositor_ticket_updates
    read_depositor_info compute_global_operator_reward compute_global_reward
    handle_depositor_operator_updates compute_operator_reward store_depositor_info
withdrawal_run = refl

after_deposit-IsBalanced : IsBalanced after_deposit
after_deposit-IsBalanced =
    (execute_deposit-IsBalanced testnet genesis after_deposit env (sends 2 25_000_000) 1193046
      (some 5) _ deposit_run genesis-IsBalanced).0

execute_withdraw-IsBalanced_example : IsBalanced after_withdrawal
execute_withdraw-IsBalanced_example =
    execute_withdraw-IsBalanced testnet after_deposit after_withdrawal next_env (sends 2 0)
      (some 20_000_000) none withdrawal_msgs withdrawal_run after_deposit-IsBalanced

execute_withdraw-Withdrawn_example :
    Withdrawn testnet after_deposit after_withdrawal next_env
      (sends 2 0)
      (some 20_000_000)
      none
      withdrawal_msgs
execute_withdraw-Withdrawn_example =
    execute_withdraw-Withdrawn testnet after_deposit after_withdrawal next_env (sends 2 0)
      (some 20_000_000) none withdrawal_msgs withdrawal_run

execute_withdraw-fair_example :
    after_deposit.pool.total_user_aust * after_withdrawal.pool.total_user_shares
    ≤ after_withdrawal.pool.total_user_aust * after_deposit.pool.total_user_shares
execute_withdraw-fair_example =
    execute_withdraw-fair testnet after_deposit after_withdrawal next_env (sends 2 0)
      (some 20_000_000) none withdrawal_msgs withdrawal_run

-- The deposit and then the withdrawal.
both : Reach genesis after_withdrawal
both =
    next
      (next here (
        deposits testnet genesis after_deposit env (sends 2 25_000_000) 1193046 (some 5) _
          deposit_run))
      (withdraws testnet after_deposit after_withdrawal next_env (sends 2 0) (some 20_000_000) none
        withdrawal_msgs withdrawal_run)

Reach-IsBalanced_example : IsBalanced after_withdrawal
Reach-IsBalanced_example = Reach-IsBalanced both genesis-IsBalanced
