-- ===== src/Lotto/Examples/Parts.antt =====
-- The theorems on the parts of the handlers, at concrete calls.
use glow_contracts.Base.{
  ℕ, List, [], ◌∷◌, none, some, Result, ok, err, ◌≡◌, refl, ◌≤◌, ◌+◌, nat_beq, arith, if◌then◌else◌,
  at_time,
}
use glow_contracts.Lotto.Types.{
  Store, Msg, DepositorInfo, Pool, Ticket, Claim, RewardEmissionsIndex,
}
use glow_contracts.Lotto.Storage.{
  read_depositor_info, store_depositor_info, vec_string_tickets_to_vec_binary_tickets,
}
use glow_contracts.Lotto.Storage.Laws.{read-store_depositor_info}
use glow_contracts.Lotto.Rewards.{compute_global_reward, compute_operator_reward}
use glow_contracts.Lotto.Rewards.Laws.{
  Grown, compute_global_reward_grows, compute_global_reward_again,
}
use glow_contracts.Lotto.Operators.{handle_depositor_operator_updates}
use glow_contracts.Lotto.Operators.Shares.{Updated, handle_depositor_operator_updates-Updated}
use glow_contracts.Lotto.Tickets.{handle_depositor_ticket_updates}
use glow_contracts.Lotto.Tickets.Purchase.{Purchase, handle_depositor_ticket_updates_lem}
use glow_contracts.Lotto.Unbonding.{partition_claims, execute_claim_unbonded}
use glow_contracts.Lotto.Unbonding.Payment.{
  is_mature, claimed, waiting, Released, partition_claims_lem, partition_claims_capped,
  execute_claim_unbonded-Released,
}
use glow_contracts.Tax.{deduct_tax}
use glow_contracts.Platform.Testnet.{testnet}
use glow_contracts.Lotto.Examples.Scenario.{
  genesis, env, next_env, sends, config, state, pool, state_after, msgs_after,
}

abbrev value_or {ℓ} : {A : Type ℓ} → A → Result A → A
value_or d (ok a) = a
value_or d (err e) = d

-- Two claims, of which the second is not due.
abbrev two_claims : List Claim
two_claims =
    record { amount = 3; release_at = at_time 5 }
    ∷ record { amount = 4; release_at = at_time 6 }
    ∷ []

abbrev newcomer : DepositorInfo
newcomer = record { shares = 0; tickets = []; unbonding_info = two_claims; operator_addr = 0 }

abbrev ticket : Ticket
ticket = 49 ∷ 50 ∷ 97 ∷ 98 ∷ 99 ∷ 48 ∷ []

abbrev holder : DepositorInfo
holder = record {
  shares = 7;
  tickets = ticket ∷ [];
  unbonding_info = two_claims;
  operator_addr = 0;
}

abbrev tickets_bought : Result (Store × (DepositorInfo × ℕ))
tickets_bought =
    handle_depositor_ticket_updates testnet env config pool 2 newcomer 1193046
      1_100_000_000_000_000_000 22_000_000 22_000_000 genesis

abbrev bought : Store × (DepositorInfo × ℕ)
bought = value_or (genesis, (newcomer, 0)) tickets_bought

bought_run : tickets_bought ≡ ok bought
unfolding handle_depositor_ticket_updates
bought_run = refl

handle_depositor_ticket_updates_lem_example :
    Purchase testnet config pool 2 1_100_000_000_000_000_000 22_000_000 22_000_000 genesis bought.0
      newcomer bought.1.0 bought.1.1
handle_depositor_ticket_updates_lem_example =
    handle_depositor_ticket_updates_lem testnet env config pool 2 newcomer bought.1.0 1193046
      1_100_000_000_000_000_000 22_000_000 22_000_000 genesis bought.0 bought.1.1 bought_run

abbrev operator_update : Result (Store × (Pool × DepositorInfo))
operator_update = handle_depositor_operator_updates testnet genesis state pool 2 holder 10 (some 5)

abbrev assigned : Store × (Pool × DepositorInfo)
assigned = value_or (genesis, (pool, holder)) operator_update

operator_run : operator_update ≡ ok assigned
unfolding handle_depositor_operator_updates compute_operator_reward
operator_run = refl

handle_depositor_operator_updates-Updated_example :
    Updated testnet genesis assigned.0 pool assigned.1.0 holder assigned.1.1 10 (some 5)
handle_depositor_operator_updates-Updated_example =
    handle_depositor_operator_updates-Updated testnet genesis assigned.0 state pool assigned.1.0 2
      holder assigned.1.1 10 (some 5) operator_run

abbrev stored : Store
stored = value_or genesis (store_depositor_info testnet genesis 2 holder 100)

stored_run : store_depositor_info testnet genesis 2 holder 100 ≡ ok stored
unfolding store_depositor_info
stored_run = refl

read-store_depositor_info_example :
    read_depositor_info testnet stored 2
    ≡ (if nat_beq 2 2 then holder else read_depositor_info testnet genesis 2)
read-store_depositor_info_example =
    read-store_depositor_info testnet genesis stored 2 2 holder 100 (refl, tt) stored_run

abbrev packed : List (List ℕ)
packed = value_or [] (vec_string_tickets_to_vec_binary_tickets testnet (ticket ∷ []))

packed_run : vec_string_tickets_to_vec_binary_tickets testnet (ticket ∷ []) ≡ ok packed
unfolding vec_string_tickets_to_vec_binary_tickets
packed_run = refl

abbrev index : RewardEmissionsIndex
index = record {
  last_reward_updated = 90;
  global_reward_index = 4;
  glow_emission_rate = 2_000_000_000_000_000_000;
}

abbrev later_index : RewardEmissionsIndex
later_index = value_or index (compute_global_reward testnet index 5 100)

index_run : compute_global_reward testnet index 5 100 ≡ ok later_index
unfolding compute_global_reward
index_run = refl

compute_global_reward_grows_example : Grown testnet index later_index 5 100
compute_global_reward_grows_example =
    compute_global_reward_grows testnet index later_index 5 100 index_run

compute_global_reward_again_example :
    compute_global_reward testnet later_index 7 100 ≡ ok later_index
compute_global_reward_again_example =
    compute_global_reward_again testnet index later_index 5 7 100 index_run

partition_run :
    partition_claims testnet two_claims env.block none 0
    ≡ ok (3, record { amount = 4; release_at = at_time 6 } ∷ [])
unfolding partition_claims
partition_run = refl

partition_claims_lem_example :
    (3 ≡ 0 + claimed (is_mature testnet env.block) two_claims)
    × (record { amount = 4; release_at = at_time 6 } ∷ []
        ≡ waiting (is_mature testnet env.block) two_claims)
partition_claims_lem_example = partition_claims_lem testnet env.block two_claims 0 3 _ partition_run

capped_run :
    partition_claims testnet two_claims next_env.block (some 6) 0
    ≡ ok (3, record { amount = 4; release_at = at_time 6 } ∷ [])
unfolding partition_claims
capped_run = refl

partition_claims_capped_example : 3 ≤ 6
partition_claims_capped_example =
    partition_claims_capped testnet next_env.block two_claims 6 0 3
      (record { amount = 4; release_at = at_time 6 } ∷ []) (omega arith) capped_run

abbrev unbonding : Store
unbonding = value_or genesis (store_depositor_info testnet genesis 2 holder 100)

abbrev paid : Result (Store × List Msg)
paid = execute_claim_unbonded testnet unbonding env (sends 2 0)

paid_run : paid ≡ ok (state_after paid, msgs_after paid)
unfolding execute_claim_unbonded deduct_tax store_depositor_info read_depositor_info
paid_run = refl

execute_claim_unbonded-Released_example :
    Released testnet unbonding (state_after paid) env (sends 2 0) (msgs_after paid)
execute_claim_unbonded-Released_example =
    execute_claim_unbonded-Released testnet unbonding (state_after paid) env (sends 2 0)
      (msgs_after paid) paid_run
