-- ===== src/Gov/Runs.antt =====
-- Runs of the governance contract: the calls of `execute` (contracts/gov/src/contract.rs) that
-- succeed, in any order and of any account.
pub mod Books
pub mod Lifecycle
pub mod Once
pub mod Endings
use glow_contracts.Base.{List, ok, ◌≡◌, Env, MessageInfo}
use glow_contracts.Platform.{Platform}
use glow_contracts.Gov.Types.{Store, ExecuteMsg, Msg, InstantiateMsg}
use glow_contracts.Gov.Contract.{execute, instantiate}

-- A call that succeeds, on a platform that answers its queries as it does then.
pub data Step : Store → Store → Type 1 where
  calls :
      (p : Platform) (s s' : Store) (env : Env) (info : MessageInfo) (msg : ExecuteMsg)
      (msgs : List Msg)
      → execute p s env info msg ≡ ok (s', msgs)
      → Step s s'

-- The states that sequences of calls lead to.
pub data Reach (s : Store) : Store → Type 1 where
  here : Reach s s
  next : {t u : Store} → Reach s t → Step t u → Reach s u
