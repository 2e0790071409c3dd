-- ===== src/Lotto/Deposit/Effects.antt =====
-- What a deposit or gift does, as it is seen in the storage (contracts/lotto/src/contract.rs).
use glow_contracts.Base.{
  ℕ, ◌+◌, ◌≡◌, Option, none, List, [], ◌∷◌, ◌++◌, ok, length, nat_beq, if◌then◌else◌, true, false,
  some,
}
use glow_contracts.Platform.{Platform}
use glow_contracts.Tax.{deduct_tax}
use glow_contracts.Lotto.Types.{
  Store, DepositorInfo, Ticket, Addr, Env, MessageInfo, Msg, deposit_stable,
}
use glow_contracts.Lotto.Storage.{read_depositor_info, operator_registered, read_operator_info}
use glow_contracts.Lotto.Tickets.Limits.{AreValid}
use glow_contracts.Lotto.Operators.Shares.{uncounted, joined, operator_shares}
use glow_contracts.Lotto.Books.{user_shares, user_tickets, IsSynced}
use glow_contracts.Lotto.Deposit.{amount_sent, minted}

-- What an operator's shares gain when a depositor with the operator `o` is credited `n` shares.
abbrev pub gain : DepositorInfo → Addr → Addr → ℕ → Option Addr → ℕ
gain i o b n new =
    if nat_beq o b
    then joined (operator_registered i) new n + uncounted (operator_registered i) i.shares new
    else 0

module _ (p : Platform) where
  abbrev pub info_of : Store → Addr → DepositorInfo
  info_of = read_depositor_info p

  -- The account that is credited: the recipient's if one is named, and else the sender's.
  abbrev pub IsDepositor : MessageInfo → Option Addr → Addr → Type 0
  IsDepositor info none a = a ≡ info.sender
  IsDepositor info (some recipient) a = p.addr_validate recipient ≡ ok a

  -- What a deposit has done: `aust` and `shares` are what the amount after tax is worth, and `new`
  -- is the number of new tickets.
  pub record Deposited (s s' : Store) (env : Env) (info : MessageInfo)
      (recipient operator : Option Addr) (msgs : List Msg) : Type 0 where
    pub depositor : Addr
    pub is_depositor : IsDepositor info recipient depositor
    pub rate : ℕ
    pub queried : p.exchange_rate s.config.anchor_contract env.block.block_height ≡ ok rate
    pub net : ℕ
    pub taxed :
        deduct_tax p s.config.stable_denom (amount_sent s.config.stable_denom info.funds) ≡ ok net
    pub aust : ℕ
    pub shares : ℕ
    pub worth : minted p s.pool net rate ≡ ok (aust, shares)
    pub new : ℕ
    pub config_lem : s'.config ≡ s.config
    pub sponsors_lem : s'.sponsors ≡ s.sponsors
    pub prizes_lem : s'.prizes ≡ s.prizes
    pub pool_shares : s'.pool.total_user_shares ≡ s.pool.total_user_shares + shares
    pub pool_aust : s'.pool.total_user_aust ≡ s.pool.total_user_aust + aust
    pub pool_sponsors :
        s'.pool.total_sponsor_lottery_deposits ≡ s.pool.total_sponsor_lottery_deposits
    pub users : user_shares s' ≡ user_shares s + shares
    pub tickets_state : s'.state.total_tickets ≡ s.state.total_tickets + new
    pub tickets_users : IsSynced s → user_tickets s' ≡ user_tickets s + new
    pub gap :
        operator_shares s' + s.pool.total_operator_shares
        ≡ operator_shares s
          + s'.pool.total_operator_shares
          + uncounted
              (operator_registered (info_of s depositor))
              (info_of s depositor).shares
              operator
    pub synced : IsSynced s → IsSynced s'
    -- the depositor's information and everyone else's
    pub bought : List Ticket
    pub bought_valid : AreValid bought
    pub bought_counted : length bought ≡ new
    pub operator_addr : Addr
    pub credited :
        (b : Addr)
        → info_of s' b ≡ (
            if nat_beq depositor b
            then record (info_of s depositor) {
              shares = (info_of s depositor).shares + shares;
              tickets = (info_of s depositor).tickets ++ bought;
              operator_addr = operator_addr;
            }
            else info_of s b)
    -- the depositor's operator, its shares and the pool's sum
    pub operator_kept :
        operator_registered (info_of s depositor) ≡ true
        → operator_addr ≡ (info_of s depositor).operator_addr
    pub operator_unasked : operator ≡ none → operator_addr ≡ (info_of s depositor).operator_addr
    pub operator_chosen :
        (b : Addr)
        → operator_registered (info_of s depositor) ≡ false
        → operator ≡ some b
        → p.addr_validate b ≡ ok operator_addr
    pub pool_operators :
        s'.pool.total_operator_shares
        ≡ s.pool.total_operator_shares
          + joined (operator_registered (info_of s depositor)) operator shares
    pub gained :
        (b : Addr)
        → (read_operator_info s' b).shares
          ≡ (read_operator_info s b).shares
            + gain (info_of s depositor) operator_addr b shares operator
    pub message :
        msgs
        ≡ deposit_stable s.config.anchor_contract
            (record { denom = s.config.stable_denom; coin_amount = net })
          ∷ []
    -- The parts of a deposit, from the information of the depositor `a` to the storage `s3`.
