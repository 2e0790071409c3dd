-- ===== src/Gov/Contract/Cases.antt =====
-- One case for each thing that a call of `execute` (contracts/gov/src/contract.rs) can be.
use glow_contracts.Base.{
  ℕ, ◌≡◌, refl, ok, some, none, Option, List, with_ok, with_test, not, nat_beq, Env, MessageInfo,
  Addr,
}
use glow_contracts.Platform.{Platform}
use glow_contracts.Gov.Types.{
  Store, ExecuteMsg, Cw20HookMsg, ConfigUpdate, Msg, VoteOption, PollExecuteMsg,
}
use glow_contracts.Gov.Staking.{stake_voting_tokens, withdraw_voting_tokens}
use glow_contracts.Gov.Polls.{create_poll, end_poll, execute_poll, expire_poll, cast_vote}
use glow_contracts.Gov.Contract.{
  execute, hook, receive_cw20, register_contracts, sweep, update_config, owner_after,
}
use glow_contracts.Gov.Polls.Success.{result_parts}

-- The calls that change the configuration alone.
module _ (p : Platform) (s s' : Store) (env : Env) (info : MessageInfo) (msgs : List Msg) where
  pub register_contracts-frame :
      (glow_token ve_token terraswap_factory : Addr)
      → register_contracts p s glow_token ve_token terraswap_factory ≡ ok (s', msgs)
      → s' ≡ record s { config = s'.config }
  unfolding register_contracts
  register_contracts-frame glow_token ve_token terraswap_factory run =
      with_test (not (nat_beq s.config.glow_token 0)) _ _ run λ free r1.
        with_ok (p.addr_canonicalize glow_token) _ r1 λ glow e2 r2.
          with_ok (p.addr_canonicalize ve_token) _ r2 λ ve e3 r3.
            with_ok (p.addr_canonicalize terraswap_factory) _ r3
              λ factory e4 r4. let e = (result_parts r4).0 in rw e refl

  pub sweep-frame :
      (denom : ℕ) → sweep p s env denom ≡ ok (s', msgs) → s' ≡ record s { config = s'.config }
  unfolding sweep
  sweep-frame denom run = with_ok (p.addr_humanize s.config.glow_token) _ run λ glow e1 r1.
      with_ok (p.addr_humanize s.config.terraswap_factory) _ r1 λ factory e2 r2.
        with_ok (p.pair_contract factory denom glow) _ r2 λ pair e3 r3.
          with_ok (p.bank_balance env.contract denom) _ r3 λ balance e4 r4.
            with_ok (p.asset_deduct_tax denom balance) _ r4
              λ amount e5 r5. let e = (result_parts r5).0 in rw e refl

  pub update_config-frame :
      (u : ConfigUpdate)
      → update_config p s info u ≡ ok (s', msgs)
      → s' ≡ record s { config = s'.config }
  unfolding update_config
  update_config-frame u run = with_ok (p.addr_canonicalize info.sender) _ run λ sender e1 r1.
      with_test (not (nat_beq s.config.owner sender)) _ _ r1 λ owned r2.
        with_ok (owner_after p u.owner s.config.owner) _ r2
          λ owner e3 r3. let e = (result_parts r3).0 in rw e refl

-- What holds after each of the handlers holds after every call.
pub record Cases (p : Platform) (s s' : Store) (env : Env) (msgs : List Msg) (P : Type 0)
    : Type 0 where
  pub configures : s' ≡ record s { config = s'.config } → P
  pub creates :
      (proposer : Addr) (amount : ℕ) (title description : List ℕ) (link : Option (List ℕ))
      (execute_msgs : Option (List PollExecuteMsg))
      → create_poll p s env proposer amount title description link execute_msgs ≡ ok (s', msgs)
      → P
  pub stakes :
      (sender : Addr) (amount : ℕ) → stake_voting_tokens p s sender amount ≡ ok (s', msgs) → P
  pub withdraws :
      (info : MessageInfo) (amount : Option ℕ)
      → withdraw_voting_tokens p s info amount ≡ ok (s', msgs)
      → P
  pub votes :
      (info : MessageInfo) (id : ℕ) (vote : VoteOption)
      → cast_vote p s env info id vote ≡ ok (s', msgs)
      → P
  pub ends : (id : ℕ) → end_poll p s env id ≡ ok (s', msgs) → P
  pub executes : (id : ℕ) → execute_poll p s env id ≡ ok (s', msgs) → P
  pub expires : (id : ℕ) → expire_poll p s env id ≡ ok (s', msgs) → P

module _ (p : Platform) (s s' : Store) (env : Env) (msgs : List Msg) (P : Type 0)
    (c : Cases p s s' env msgs P) where
  hook-cases :
      (sender : Addr) (amount : ℕ) (msg : Option Cw20HookMsg)
      → hook p s env sender amount msg ≡ ok (s', msgs)
      → P
  unfolding hook
  hook-cases sender amount none run = cc
  hook-cases sender amount (some Cw20HookMsg.stake_voting_tokens) run =
      with_ok (p.addr_validate sender) _ run λ staker e r. c.stakes staker amount r
  hook-cases sender amount (some (Cw20HookMsg.create_poll title description link execute_msgs))
        run =
      c.creates sender amount title description link execute_msgs run

  pub execute-cases :
      (info : MessageInfo) (msg : ExecuteMsg) → execute p s env info msg ≡ ok (s', msgs) → P
  unfolding execute receive_cw20
  execute-cases info (ExecuteMsg.receive m) run =
      with_ok (p.addr_canonicalize info.sender) _ run λ token e1 r1.
        with_test (not (nat_beq s.config.glow_token token)) _ _ r1
          λ known r2. hook-cases m.sender m.amount m.msg r2
  execute-cases info (ExecuteMsg.register_contracts glow ve factory) run =
      c.configures (register_contracts-frame p s s' env info msgs glow ve factory run)
  execute-cases info (ExecuteMsg.sweep denom) run =
      c.configures (sweep-frame p s s' env info msgs denom run)
  execute-cases info (ExecuteMsg.update_config u) run =
      c.configures (update_config-frame p s s' env info msgs u run)
  execute-cases info (ExecuteMsg.withdraw_voting_tokens amount) run = c.withdraws info amount run
  execute-cases info (ExecuteMsg.cast_vote id vote) run = c.votes info id vote run
  execute-cases info (ExecuteMsg.end_poll id) run = c.ends id run
  execute-cases info (ExecuteMsg.execute_poll id) run = c.executes id run
  execute-cases info (ExecuteMsg.expire_poll id) run = c.expires id run
