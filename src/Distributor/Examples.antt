-- ===== src/Distributor/Examples.antt =====
-- The theorem on the emission rate, after a call that changes the multiplier and the cap.
use glow_contracts.Base.{ℕ, ◌*◌, ◌≡◌, refl, ok, [], ◌∷◌, none, some, MessageInfo}
use glow_contracts.Platform.Testnet.{testnet}
use glow_contracts.Distributor.{Config, InstantiateMsg, ConfigUpdate, ExecuteMsg}
use glow_contracts.Distributor.Contract.{instantiate, execute, query_glow_emission_rate}
use glow_contracts.Distributor.Rates.{here, next, IsAdjusted, query_glow_emission_rate-IsAdjusted}

abbrev from : ℕ → MessageInfo
from account = record { sender = account; funds = [] }

abbrev first : InstantiateMsg
first = record {
  owner = 1;
  glow_token = 20;
  whitelist = 3 ∷ [];
  spend_limit = 500;
  emission_cap = 10 * testnet.one;
  emission_floor = 2 * testnet.one;
  increment_multiplier = testnet.one;
  decrement_multiplier = testnet.one;
}

abbrev created : Config
created = record {
  owner = 1;
  glow_token = 20;
  whitelist = 3 ∷ [];
  spend_limit = 500;
  emission_cap = 10 * testnet.one;
  emission_floor = 2 * testnet.one;
  increment_multiplier = testnet.one;
  decrement_multiplier = testnet.one;
}

abbrev change : ConfigUpdate
change = record {
  owner = none;
  spend_limit = none;
  emission_cap = some (20 * testnet.one);
  emission_floor = none;
  increment_multiplier = some (3 * testnet.one);
  decrement_multiplier = none;
}

abbrev changed : Config
changed = record created { emission_cap = 20 * testnet.one; increment_multiplier = 3 * testnet.one }

created_run : instantiate testnet first ≡ ok created
unfolding instantiate
created_run = refl

changed_run : execute testnet created (from 1) (ExecuteMsg.update_config change) ≡ ok (changed, [])
unfolding execute
changed_run = refl

rate_run :
    query_glow_emission_rate testnet changed 100 200 (5 * testnet.one) ≡ ok (15 * testnet.one)
unfolding query_glow_emission_rate
rate_run = refl

query_glow_emission_rate-IsAdjusted_example :
    IsAdjusted testnet changed 100 200 (5 * testnet.one) (15 * testnet.one)
query_glow_emission_rate-IsAdjusted_example =
    query_glow_emission_rate-IsAdjusted testnet first created changed 100 200 (5 * testnet.one)
      (15 * testnet.one) created_run
      (next changed (from 1) (ExecuteMsg.update_config change) [] here changed_run) rate_run
