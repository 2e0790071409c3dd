-- ===== src/Lotto/Storage.antt =====
-- Reading and writing storage (contracts/lotto/src/state.rs).
pub mod Laws
pub mod Hex
use glow_contracts.Base.{
  ℕ, ◌≡◌, Bool, ◌&&◌, not, Option, none, some, List, [], ◌∷◌, map, Result, ok, err, std, ◌>>=◌,
  ◌>>◌, fail_if, ◌==◌, nat_eq, pair_eq, length, ltb, false, if◌then◌else◌, nat_beq, zero, suc,
}
pub use glow_contracts.Base.{or_default}
use glow_contracts.Dict.{Dict, lookup, insert}
use glow_contracts.Platform.{Platform}
use glow_contracts.Lotto.Types.{
  Config, Store, DepositorInfo, DepositorStatsInfo, DepositorData, SponsorInfo, OperatorInfo,
  LotteryInfo, Addr, no_addr, Ticket,
}

-- `Config::contracts_registered`
unfoldable pub contracts_registered : Config → Bool
contracts_registered c =
    not (nat_beq c.gov_contract no_addr)
    && (not (nat_beq c.community_contract no_addr) && not (nat_beq c.distributor_contract no_addr))

-- `DepositorInfo::operator_registered`
unfoldable pub operator_registered : DepositorInfo → Bool
operator_registered d = not (nat_beq d.operator_addr no_addr)

abbrev pub zeros : List ℕ
zeros = 0 ∷ 0 ∷ 0 ∷ 0 ∷ 0 ∷ 0 ∷ 0 ∷ []

abbrev pub no_lottery : LotteryInfo
no_lottery = record {
  rand_round = 0;
  sequence = [];
  awarded = false;
  timestamp = 0;
  block_height = 0;
  prize_buckets = zeros;
  number_winners = zeros;
  page = [];
  glow_prize_buckets = zeros;
  total_user_shares = 0;
}

unfoldable pub read_lottery_info : Store → ℕ → LotteryInfo
read_lottery_info s id = or_default no_lottery (lookup id s.lotteries)

unfoldable pub store_lottery_info : Store → ℕ → LotteryInfo → Store
store_lottery_info s id l = record s { lotteries = insert id l s.lotteries }

abbrev pub no_stats : DepositorStatsInfo
no_stats = record { shares = 0; num_tickets = 0; operator_addr = no_addr }

abbrev pub no_data : DepositorData
no_data = record { vec_binary_tickets = []; unbonding_info = [] }

abbrev pub latest : List (ℕ × DepositorStatsInfo) → DepositorStatsInfo
latest [] = no_stats
latest ((h, i) ∷ l) = i

-- The value that stood at the start of a block.
abbrev pub at_start_of : ℕ → List (ℕ × DepositorStatsInfo) → DepositorStatsInfo
at_start_of height [] = no_stats
at_start_of height ((h, i) ∷ l) = if ltb h height then i else at_start_of height l

unfoldable pub read_depositor_stats : Store → Addr → DepositorStatsInfo
read_depositor_stats s a = latest (or_default [] (lookup a s.depositor_stats))

unfoldable pub read_depositor_stats_at_height : Store → Addr → ℕ → DepositorStatsInfo
read_depositor_stats_at_height s a height =
    at_start_of height (or_default [] (lookup a s.depositor_stats))

unfoldable pub read_depositor_data : Store → Addr → DepositorData
read_depositor_data s a = or_default no_data (lookup a s.depositor_data)

-- `DEPOSITOR_STATS.save`
unfoldable pub save_stats : Store → Addr → DepositorStatsInfo → ℕ → Store
save_stats s a i height = record s {
  depositor_stats =
      insert a ((height, i) ∷ or_default [] (lookup a s.depositor_stats)) s.depositor_stats;
}

unfoldable pub store_depositor_stats : Store → Addr → DepositorStatsInfo → ℕ → Result Store
unfolding read_depositor_stats save_stats
store_depositor_stats s a i height = do
  fail_if (not (nat_beq (read_depositor_stats s a).num_tickets i.num_tickets))
      (std "Can't change num tickets and save depositor stats")
  ok (save_stats s a i height)

unfoldable pub read_sponsor_info : Store → Addr → SponsorInfo
read_sponsor_info s a =
    or_default (record { lottery_deposit = 0; pending_rewards = 0; reward_index = 0 })
      (lookup a s.sponsors)

unfoldable pub store_sponsor_info : Store → Addr → SponsorInfo → Store
store_sponsor_info s a i = record s { sponsors = insert a i s.sponsors }

unfoldable pub read_operator_info : Store → Addr → OperatorInfo
read_operator_info s a =
    or_default (record { shares = 0; pending_rewards = 0; reward_index = 0 }) (lookup a s.operators)

unfoldable pub store_operator_info : Store → Addr → OperatorInfo → Store
store_operator_info s a i = record s { operators = insert a i s.operators }

module _ (p : Platform) where
  open p use {hex_encode, hex_decode}

  -- One ticket of `vec_string_tickets_to_vec_binary_tickets`: three bytes.
  unfoldable pub binary_ticket : Ticket → Result (List ℕ)
  binary_ticket t = elim (hex_decode t) [
    | none ↦ err (std "Couldn't hex decode string ticket")
    | some b ↦
        if nat_beq (length b) 3 then ok b else err (std "Couldn't convert vec ticket to [u8, 3]")
  ]

  unfoldable pub vec_string_tickets_to_vec_binary_tickets : List Ticket → Result (List (List ℕ))
  unfolding binary_ticket
  vec_string_tickets_to_vec_binary_tickets [] = ok []
  vec_string_tickets_to_vec_binary_tickets (t ∷ ts) = do
    b ← binary_ticket t
    bs ← vec_string_tickets_to_vec_binary_tickets ts
    ok (b ∷ bs)

  unfoldable pub vec_binary_tickets_to_vec_string_tickets : List (List ℕ) → List Ticket
  vec_binary_tickets_to_vec_string_tickets = map hex_encode

  unfoldable pub read_depositor_info : Store → Addr → DepositorInfo
  unfolding read_depositor_data read_depositor_stats vec_binary_tickets_to_vec_string_tickets
  read_depositor_info s a =
      let data_info = read_depositor_data s a in
      let stats = read_depositor_stats s a in
      record {
        shares = stats.shares;
        tickets = vec_binary_tickets_to_vec_string_tickets data_info.vec_binary_tickets;
        unbonding_info = data_info.unbonding_info;
        operator_addr = stats.operator_addr;
      }

  unfoldable pub store_depositor_info : Store → Addr → DepositorInfo → ℕ → Result Store
  unfolding vec_string_tickets_to_vec_binary_tickets save_stats
  store_depositor_info s a i height = do
    tickets ← vec_string_tickets_to_vec_binary_tickets i.tickets
    let data_info : DepositorData = record {
      vec_binary_tickets = tickets;
      unbonding_info = i.unbonding_info;
    }
    let stats : DepositorStatsInfo = record {
      shares = i.shares;
      num_tickets = length i.tickets;
      operator_addr = i.operator_addr;
    }
    let s1 = record s { depositor_data = insert a data_info s.depositor_data }
    ok (save_stats s1 a stats height)
