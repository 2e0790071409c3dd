-- ===== src/Base/AirdropErrors.antt =====
-- `ContractError` of the airdrop (contracts/airdrop/src/error.rs), beside `StdError`.
pub data AirdropError : Type 0 where
  already_claimed : AirdropError
  airdrop_expired : AirdropError
  airdrop_not_expired : AirdropError
  no_registered_airdrops : AirdropError
  invalid_hex_proof : AirdropError
  invalid_hex_merkle : AirdropError
  merkle_verification : AirdropError
  unauthorized : AirdropError
  invalid_expiry_at_seconds : AirdropError
