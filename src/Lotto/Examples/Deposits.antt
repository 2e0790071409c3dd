-- ===== src/Lotto/Examples/Deposits.antt =====
-- The theorems on deposits, at a deposit of 25 coins with one chosen and one generated ticket.
use glow_contracts.Base.{
  [], ◌∷◌, ℕ, List, none, some, Result, ok, err, ◌≡◌, refl, ◌≤◌, ◌*◌, nat_beq, false, arith,
}
use glow_contracts.Tax.{deduct_tax}
use glow_contracts.Lotto.Types.{Store, Msg}
use glow_contracts.Lotto.Storage.{
  read_depositor_data, read_depositor_info, store_depositor_info, read_depositor_stats,
}
use glow_contracts.Lotto.Rewards.{
  compute_global_operator_reward, compute_global_reward, compute_operator_reward,
}
use glow_contracts.Lotto.Operators.{handle_depositor_operator_updates}
use glow_contracts.Lotto.Tickets.{handle_depositor_ticket_updates}
use glow_contracts.Lotto.Books.{IsBalanced}
use glow_contracts.Lotto.Deposit.{deposit, execute_deposit, execute_gift, execute_claim_tickets}
use glow_contracts.Lotto.Deposit.Effects.{Deposited}
use glow_contracts.Lotto.Deposit.Accounting.{deposit-Deposited}
use glow_contracts.Lotto.Deposit.Balance.{
  execute_deposit-IsBalanced, execute_gift-IsBalanced, InStep, Given,
}
use glow_contracts.Lotto.Deposit.Fairness.{execute_deposit-fair}
use glow_contracts.Platform.Testnet.{testnet}
use glow_contracts.Lotto.Examples.Scenario.{genesis, env, sends, state_after, msgs_after}

abbrev deposited : Result (Store × List Msg)
deposited = execute_deposit testnet genesis env (sends 2 25_000_000) 1193046 (some 5)

abbrev pub after_deposit : Store
after_deposit = state_after deposited

abbrev deposit_msgs : List Msg
deposit_msgs = msgs_after deposited

pub genesis-IsBalanced : IsBalanced genesis
unfolding read_depositor_stats read_depositor_data
genesis-IsBalanced = record {
  shares = refl;
  sponsors = refl;
  tickets = omega arith;
  operators = omega arith;
  synced = λ a. refl;
}

pub deposit_run : deposited ≡ ok (after_deposit, deposit_msgs)
unfolding execute_deposit deduct_tax handle_depositor_ticket_updates read_depositor_info
    compute_global_operator_reward compute_global_reward handle_depositor_operator_updates
    compute_operator_reward store_depositor_info
deposit_run = refl

execute_deposit-IsBalanced_example :
    IsBalanced after_deposit × InStep testnet genesis after_deposit 2 (some 5)
execute_deposit-IsBalanced_example =
    execute_deposit-IsBalanced testnet genesis after_deposit env (sends 2 25_000_000) 1193046
      (some 5) deposit_msgs deposit_run genesis-IsBalanced

execute_deposit-fair_example :
    genesis.pool.total_user_aust * after_deposit.pool.total_user_shares
    ≤ after_deposit.pool.total_user_aust * genesis.pool.total_user_shares
execute_deposit-fair_example =
    execute_deposit-fair testnet genesis after_deposit env (sends 2 25_000_000) 1193046 (some 5)
      deposit_msgs deposit_run

abbrev given : Result (Store × List Msg)
given = execute_gift testnet genesis env (sends 2 25_000_000) 1193046 3 none

abbrev after_gift : Store
after_gift = state_after given

abbrev gift_msgs : List Msg
gift_msgs = msgs_after given

gift_run : given ≡ ok (after_gift, gift_msgs)
unfolding execute_gift deduct_tax handle_depositor_ticket_updates read_depositor_info
    compute_global_operator_reward compute_global_reward handle_depositor_operator_updates
    compute_operator_reward store_depositor_info
gift_run = refl

execute_gift-IsBalanced_example :
    (nat_beq 3 2 ≡ false) × (IsBalanced after_gift × Given testnet genesis after_gift 3)
execute_gift-IsBalanced_example =
    execute_gift-IsBalanced testnet genesis after_gift env (sends 2 25_000_000) 1193046 3 none
      gift_msgs gift_run genesis-IsBalanced

abbrev given_directly : Result (Store × List Msg)
given_directly = deposit testnet genesis env (sends 2 25_000_000) (some 3) (some 5) 1193046

direct_run : given_directly ≡ ok (state_after given_directly, msgs_after given_directly)
unfolding deposit deduct_tax handle_depositor_ticket_updates read_depositor_info
    compute_global_operator_reward compute_global_reward handle_depositor_operator_updates
    compute_operator_reward store_depositor_info
direct_run = refl

deposit-Deposited_example :
    Deposited testnet genesis
      (state_after given_directly)
      env
      (sends 2 25_000_000)
      (some 3)
      (some 5)
      (msgs_after given_directly)
deposit-Deposited_example =
    deposit-Deposited testnet genesis (state_after given_directly) env (sends 2 25_000_000) (some 3)
      (some 5) 1193046 (msgs_after given_directly) direct_run

abbrev taxed : Result ℕ
taxed = deduct_tax testnet 1 25_000_000

abbrev value_of : Result ℕ → ℕ
value_of (ok n) = n
value_of (err e) = 0

taxed_run : taxed ≡ ok (value_of taxed)
unfolding deduct_tax
taxed_run = refl

-- A state with a depositor whose shares pay for two tickets.
abbrev without_tickets : Store
without_tickets = record genesis {
  pool = record genesis.pool { total_user_aust = 22_000_000; total_user_shares = 22_000_000 };
  depositor_stats =
      (2, (90, record { shares = 22_000_000; num_tickets = 0; operator_addr = 0 }) ∷ []) ∷ [];
}

abbrev with_tickets : Result (Store × List Msg)
with_tickets = execute_claim_tickets testnet without_tickets env (sends 2 0) 1193046
