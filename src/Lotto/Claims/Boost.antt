-- ===== src/Lotto/Claims/Boost.antt =====
-- The boost of GLOW prizes (calculate_boost_multiplier of contracts/lotto/src/helpers.rs).
use glow_contracts.Base.{ℕ, ◌≤◌, ◌≡◌, ok, with_ok, arith, ltb, ◌&&◌, if◌then◌else◌}
use glow_contracts.Platform.{Platform}
use glow_contracts.Lotto.Types.{BoostConfig}
use glow_contracts.Lotto.Claims.{voting_boost, calculate_boost_multiplier}

module _ (p : Platform) where
  -- A boost multiplier that is computed lies between the base and the maximum, if the base is at
  -- most the maximum.
  pub calculate_boost_multiplier_bounds :
      (b : BoostConfig) (user_shares total_user_shares user_voting total_voting m : ℕ)
      → b.base_multiplier ≤ b.max_multiplier
      → calculate_boost_multiplier p b user_shares total_user_shares user_voting total_voting ≡ ok m
      → (b.base_multiplier ≤ m) × (m ≤ b.max_multiplier)
  unfolding calculate_boost_multiplier
  calculate_boost_multiplier_bounds b us tus uv tv m le h =
      with_ok (if ltb 0 tv && ltb 0 us then voting_boost p b us tus uv tv else ok 0) _ h
        λ boost e1 h1.
          with_ok (p.dec_add b.base_multiplier boost) _ h1
            λ x e2 h2. let grown = p.dec_add_lem b.base_multiplier boost x e2 in ground arith
