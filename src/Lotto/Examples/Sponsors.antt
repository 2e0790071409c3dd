-- ===== src/Lotto/Examples/Sponsors.antt =====
-- The theorems on sponsorships, at a sponsorship of one coin and its withdrawal.
use glow_contracts.Base.{List, none, Result, ok, ◌≡◌, refl}
use glow_contracts.Tax.{deduct_tax}
use glow_contracts.Lotto.Types.{Store, Msg}
use glow_contracts.Lotto.Rewards.{
  compute_global_sponsor_reward, compute_global_reward, compute_sponsor_reward,
}
use glow_contracts.Lotto.Books.{IsBalanced}
use glow_contracts.Lotto.Sponsor.{execute_sponsor, execute_sponsor_withdraw}
use glow_contracts.Lotto.Sponsor.Balance.{
  execute_sponsor-IsBalanced, execute_sponsor_withdraw-IsBalanced,
}
use glow_contracts.Platform.Testnet.{testnet}
use glow_contracts.Lotto.Examples.Scenario.{genesis, env, next_env, sends, state_after, msgs_after}
use glow_contracts.Lotto.Examples.Deposits.{genesis-IsBalanced}

abbrev sponsored : Result (Store × List Msg)
sponsored = execute_sponsor testnet genesis env (sends 4 1_000_000) none none

abbrev after_sponsor : Store
after_sponsor = state_after sponsored

sponsor_run : sponsored ≡ ok (after_sponsor, msgs_after sponsored)
unfolding execute_sponsor deduct_tax compute_global_sponsor_reward compute_global_reward
    compute_sponsor_reward
sponsor_run = refl

after_sponsor-IsBalanced : IsBalanced after_sponsor
after_sponsor-IsBalanced =
    execute_sponsor-IsBalanced testnet genesis after_sponsor env (sends 4 1_000_000) none none _
      sponsor_run genesis-IsBalanced

execute_sponsor-IsBalanced_example : IsBalanced after_sponsor
execute_sponsor-IsBalanced_example =
    execute_sponsor-IsBalanced testnet genesis after_sponsor env (sends 4 1_000_000) none none
      (msgs_after sponsored) sponsor_run genesis-IsBalanced

abbrev returned : Result (Store × List Msg)
returned = execute_sponsor_withdraw testnet after_sponsor next_env (sends 4 0)

return_run : returned ≡ ok (state_after returned, msgs_after returned)
unfolding execute_sponsor execute_sponsor_withdraw deduct_tax compute_global_sponsor_reward
    compute_global_reward compute_sponsor_reward
return_run = refl

execute_sponsor_withdraw-IsBalanced_example : IsBalanced (state_after returned)
execute_sponsor_withdraw-IsBalanced_example =
    execute_sponsor_withdraw-IsBalanced testnet after_sponsor (state_after returned) next_env
      (sends 4 0) (msgs_after returned) return_run after_sponsor-IsBalanced
