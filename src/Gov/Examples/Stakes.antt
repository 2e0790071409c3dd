-- ===== src/Gov/Examples/Stakes.antt =====
-- The theorems on stakes, at two stakes and a withdrawal.
use glow_contracts.Base.{ℕ, ◌≡◌, ◌+◌, ◌*◌, ◌<◌, ◌≤◌, refl, ok, none, some, Option, [], ◌∷◌}
use glow_contracts.Gov.Types.{Store, transfer}
use glow_contracts.Gov.Contract.{instantiate, execute, register_contracts}
use glow_contracts.Gov.Staking.{glow_balance, stake_voting_tokens, withdraw_voting_tokens}
use glow_contracts.Gov.Staking.Price.{withdraw_voting_tokens-price}
use glow_contracts.Gov.Examples.Scenario.{chain, from, registered, after}

-- The contract holds 1,000,000,000 throughout.
abbrev staked : Store
staked = after (stake_voting_tokens chain registered 2 600_000_000)

abbrev withdrawn : Store
withdrawn = after (withdraw_voting_tokens chain staked (from 2) (some 700))

withdrawn_run :
    withdraw_voting_tokens chain staked (from 2) (some 700) ≡ ok (withdrawn, transfer 20 2 700 ∷ [])
unfolding instantiate execute register_contracts stake_voting_tokens withdraw_voting_tokens
withdrawn_run = refl

balance_known : glow_balance chain staked.config staked.state ≡ ok 1_000_000_000
unfolding instantiate execute register_contracts stake_voting_tokens glow_balance
balance_known = refl

no_deposits : 1_000_000_000 + staked.state.total_deposit ≡ 1_000_000_000
unfolding instantiate execute register_contracts stake_voting_tokens
no_deposits = refl

withdraw_voting_tokens-price_example :
    (token : ℕ) × ((receiver : ℕ) × ((a : ℕ) × ((burned : ℕ) × ((transfer 20 2 700 ∷ []
              ≡ transfer token receiver a ∷ [])
            × ((burned + withdrawn.state.total_share ≡ staked.state.total_share)
                × ((◌≡◌ {A = Option ℕ} (some 700) none
                      → a * staked.state.total_share ≤ burned * 1_000_000_000)
                    × (a * staked.state.total_share < burned * 1_000_000_000 + 1_000_000_000)))))))
withdraw_voting_tokens-price_example =
    withdraw_voting_tokens-price chain staked withdrawn (transfer 20 2 700 ∷ []) (from 2) (some 700)
      1_000_000_000 1_000_000_000 balance_known no_deposits withdrawn_run
