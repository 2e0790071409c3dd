-- ===== src/Lotto/Steps.antt =====
-- The lotto as a state machine: the calls that move money, in any order (`execute` of
-- contracts/lotto/src/contract.rs, without its pause).
pub mod Balance
use glow_contracts.Base.{ℕ, ◌≡◌, Option, Bool, List, ok}
use glow_contracts.Platform.{Platform}
use glow_contracts.Lotto.Types.{Store, Env, MessageInfo, Msg, Addr}
use glow_contracts.Lotto.Deposit.{execute_deposit, execute_gift, execute_claim_tickets}
use glow_contracts.Lotto.Withdraw.{execute_withdraw}
use glow_contracts.Lotto.Sponsor.{execute_sponsor, execute_sponsor_withdraw}
use glow_contracts.Lotto.Unbonding.{execute_claim_unbonded}
use glow_contracts.Lotto.Draw.{execute_lottery}
use glow_contracts.Lotto.Claims.{execute_claim_lottery}

-- A call that succeeds, on a platform that answers its queries as it does then.
pub data Step : Store → Store → Type 1 where
  deposits :
      (p : Platform) (s s' : Store) (env : Env) (info : MessageInfo) (encoded : ℕ)
      (operator : Option Addr) (msgs : List Msg)
      → execute_deposit p s env info encoded operator ≡ ok (s', msgs)
      → Step s s'
  gives :
      (p : Platform) (s s' : Store) (env : Env) (info : MessageInfo) (encoded : ℕ) (to : Addr)
      (operator : Option Addr) (msgs : List Msg)
      → execute_gift p s env info encoded to operator ≡ ok (s', msgs)
      → Step s s'
  withdraws :
      (p : Platform) (s s' : Store) (env : Env) (info : MessageInfo) (amount : Option ℕ)
      (instant : Option Bool) (msgs : List Msg)
      → execute_withdraw p s env info amount instant ≡ ok (s', msgs)
      → Step s s'
  sponsors :
      (p : Platform) (s s' : Store) (env : Env) (info : MessageInfo) (award : Option Bool)
      (distribution : Option (List ℕ)) (msgs : List Msg)
      → execute_sponsor p s env info award distribution ≡ ok (s', msgs)
      → Step s s'
  withdraws_sponsorship :
      (p : Platform) (s s' : Store) (env : Env) (info : MessageInfo) (msgs : List Msg)
      → execute_sponsor_withdraw p s env info ≡ ok (s', msgs)
      → Step s s'
  draws :
      (p : Platform) (s s' : Store) (env : Env) (info : MessageInfo) (msgs : List Msg)
      → execute_lottery p s env info ≡ ok (s', msgs)
      → Step s s'
  claims_tickets :
      (p : Platform) (s s' : Store) (env : Env) (info : MessageInfo) (encoded : ℕ) (msgs : List Msg)
      → execute_claim_tickets p s env info encoded ≡ ok (s', msgs)
      → Step s s'
  claims :
      (p : Platform) (s s' : Store) (env : Env) (info : MessageInfo) (msgs : List Msg)
      → execute_claim_unbonded p s env info ≡ ok (s', msgs)
      → Step s s'
  claims_prizes :
      (p : Platform) (s s' : Store) (env : Env) (info : MessageInfo) (ids : List ℕ)
      (msgs : List Msg)
      → execute_claim_lottery p s env info ids ≡ ok (s', msgs)
      → Step s s'

-- The states that sequences of calls lead to.
pub data Reach (s : Store) : Store → Type 1 where
  here : Reach s s
  next : {t u : Store} → Reach s t → Step t u → Reach s u
