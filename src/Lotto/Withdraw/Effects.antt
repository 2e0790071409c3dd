-- ===== src/Lotto/Withdraw/Effects.antt =====
-- What a withdrawal does, as it is seen in the storage (contracts/lotto/src/contract.rs).
use glow_contracts.Base.{
  ℕ, ◌+◌, ◌-◌, ◌≤◌, ◌≡◌, Option, List, ◌∷◌, ok, drop, if◌then◌else◌, [], ◌++◌, nat_beq, Bool, true,
  false,
}
use glow_contracts.Platform.{Platform}
use glow_contracts.Tax.{deduct_tax}
use glow_contracts.Lotto.Types.{
  Store, Config, DepositorInfo, Addr, Env, MessageInfo, Msg, redeem_stable, bank_send,
}
use glow_contracts.Lotto.Storage.{read_depositor_info, operator_registered, read_operator_info}
use glow_contracts.Lotto.Operators.Shares.{operator_shares}
use glow_contracts.Lotto.Books.{user_shares, user_tickets, IsSynced}
use glow_contracts.Lotto.Withdraw.{
  shares_to_withdraw, value_to_withdraw, tickets_to_withdraw, is_instant,
}
use glow_contracts.Lotto.Withdraw.Parts.{operated}

module _ (p : Platform) where
  -- How the amount is paid to a sender with the information `base`: at once, less the fee, which
  -- goes to the reserve, or by one more claim on the whole of it.
  abbrev pub Settled :
      Config → Env → Addr → Bool → ℕ → DepositorInfo → DepositorInfo → ℕ → ℕ → List Msg → Type 0
  Settled config env sender true amount base left reserve reserve' sent =
      (fee : ℕ) × (rest : ℕ) × (net : ℕ) × (fee + rest ≡ amount)
      × (p.mul_dec amount config.instant_withdrawal_fee ≡ ok fee)
      × (deduct_tax p config.stable_denom rest ≡ ok net)
      × (left ≡ base)
      × (reserve' ≡ reserve + fee)
      × (sent ≡ bank_send sender (record { denom = config.stable_denom; coin_amount = net }) ∷ [])
  Settled config env sender false amount base left reserve reserve' sent =
      (left ≡ record base {
        unbonding_info =
            base.unbonding_info
            ++ record { amount = amount; release_at = p.after config.unbonding_period env.block }
              ∷ [];
      })
      × (reserve' ≡ reserve)
      × (sent ≡ [])

  -- What a withdrawal has done: `shares` are taken from the depositor, worth `aust` aUST, `value`
  -- and `amount` before and after tax, and `count` tickets are given back.
  pub record Withdrawn (s s' : Store) (env : Env) (info : MessageInfo) (asked : Option ℕ)
      (instant : Option Bool) (msgs : List Msg) : Type 0 where
    pub rate : ℕ
    pub queried : p.exchange_rate s.config.anchor_contract env.block.block_height ≡ ok rate
    pub shares : ℕ
    pub chosen :
        shares_to_withdraw p s.pool (read_depositor_info p s info.sender) rate asked ≡ ok shares
    pub aust : ℕ
    pub value : ℕ
    pub worth :
        value_to_withdraw p s.pool (read_depositor_info p s info.sender) rate shares
        ≡ ok (aust, value)
    pub count : ℕ
    pub unpaid :
        tickets_to_withdraw p s.config s.pool (read_depositor_info p s info.sender) rate shares aust
        ≡ ok count
    pub amount : ℕ
    pub taxed : deduct_tax p s.config.stable_denom value ≡ ok amount
    pub enough : shares ≤ (read_depositor_info p s info.sender).shares
    pub config_lem : s'.config ≡ s.config
    pub sponsors_lem : s'.sponsors ≡ s.sponsors
    pub prizes_lem : s'.prizes ≡ s.prizes
    pub pool_shares : s'.pool.total_user_shares + shares ≡ s.pool.total_user_shares
    pub pool_aust : s'.pool.total_user_aust + aust ≡ s.pool.total_user_aust
    pub pool_sponsors :
        s'.pool.total_sponsor_lottery_deposits ≡ s.pool.total_sponsor_lottery_deposits
    pub users : user_shares s' + shares ≡ user_shares s
    pub tickets_state : s'.state.total_tickets + count ≡ s.state.total_tickets
    pub tickets_users : IsSynced s → user_tickets s' + count ≡ user_tickets s
    pub left_operator :
        operator_shares s'
          + operated (operator_registered (read_depositor_info p s info.sender)) shares
        ≡ operator_shares s
    pub left_pool :
        s'.pool.total_operator_shares
          + operated (operator_registered (read_depositor_info p s info.sender)) shares
        ≡ s.pool.total_operator_shares
    pub synced : IsSynced s → IsSynced s'
    pub lost :
        (b : Addr)
        → (read_operator_info s' b).shares
            + (if nat_beq (read_depositor_info p s info.sender).operator_addr b
                then operated (operator_registered (read_depositor_info p s info.sender)) shares
                else 0)
          ≡ (read_operator_info s b).shares
    pub left : DepositorInfo
    pub holds :
        (b : Addr)
        → read_depositor_info p s' b
          ≡ (if nat_beq info.sender b then left else read_depositor_info p s b)
    pub sent : List Msg
    pub settled :
        Settled s.config env info.sender
          (is_instant p instant)
          amount
          (record (read_depositor_info p s info.sender) {
            shares = (read_depositor_info p s info.sender).shares - shares;
            tickets = drop count (read_depositor_info p s info.sender).tickets;
          })
          left
          s.state.total_reserve
          s'.state.total_reserve
          sent
    pub messages :
        msgs ≡ redeem_stable s.config.a_terra_contract s.config.anchor_contract aust ∷ sent
