-- ===== src/Lotto/Books/Sums.antt =====
-- What storing a depositor's information does to the sums over the depositors.
use glow_contracts.Base.{
  ℕ, ◌+◌, ◌≡◌, refl, sym, List, [], ◌∷◌, ok, arith, length, >>=-eq-ok, ok-injective, subst, nat_eq,
  inl, inr, Option-cases,
}
use glow_contracts.Dict.{total, lookup, insert, total-insert, lookup-insert}
use glow_contracts.Platform.{Platform}
use glow_contracts.Lotto.Types.{
  Store, DepositorInfo, DepositorStatsInfo, DepositorData, Addr, Ticket,
}
use glow_contracts.Lotto.Storage.{
  store_depositor_info, vec_string_tickets_to_vec_binary_tickets, binary_ticket,
  read_depositor_stats, read_depositor_data, save_stats, latest, or_default,
}

-- The sum of the shares of all depositors.
abbrev pub user_shares : Store → ℕ
user_shares s = total (λ l. (latest l).shares) s.depositor_stats

-- The sum of their numbers of tickets.
abbrev pub user_tickets : Store → ℕ
user_tickets s = total (λ l. (latest l).num_tickets) s.depositor_stats

abbrev pub stored_tickets : Store → Addr → ℕ
stored_tickets s a = length (read_depositor_data s a).vec_binary_tickets

-- The number of tickets that is kept with the shares is that of the stored tickets.
abbrev pub IsSynced : Store → Type 0
IsSynced s = (a : Addr) → (read_depositor_stats s a).num_tickets ≡ stored_tickets s a

total-save_stats :
    (f : DepositorStatsInfo → ℕ) (s : Store) (a : Addr) (i : DepositorStatsInfo) (height : ℕ)
    → f (latest []) ≡ 0
    → total (λ l. f (latest l)) (save_stats s a i height).depositor_stats
        + f (read_depositor_stats s a)
      ≡ total (λ l. f (latest l)) s.depositor_stats + f i
unfolding save_stats read_depositor_stats
total-save_stats f s a i height z =
    let row = (height, i) ∷ or_default [] (lookup a s.depositor_stats) in
    let step =
      total-insert (λ (l : List (ℕ × DepositorStatsInfo)). f (latest l)) a row s.depositor_stats in
    elim (Option-cases (lookup a s.depositor_stats)) [
      | inl e ↦ rw e (rw z (rw e at step))
      | inr (l, e) ↦ rw e (rw e at step)
    ]

save_stats-frame :
    (s : Store) (a : Addr) (i : DepositorStatsInfo) (height : ℕ)
    → save_stats s a i height
      ≡ record s { depositor_stats = (save_stats s a i height).depositor_stats }
unfolding save_stats
save_stats-frame s a i height = refl

-- The storage `s'` after the information `i` of `a` is stored in `s`.
pub record Stored (s s' : Store) (a : Addr) (i : DepositorInfo) : Type 0 where
  pub frame :
      s' ≡ record s { depositor_data = s'.depositor_data; depositor_stats = s'.depositor_stats }
  pub shares_lem : user_shares s' + (read_depositor_stats s a).shares ≡ user_shares s + i.shares
  pub tickets_lem :
      user_tickets s' + (read_depositor_stats s a).num_tickets ≡ user_tickets s + length i.tickets
  pub synced : IsSynced s → IsSynced s'

module _ (p : Platform) where
  length-binary_tickets :
      (ts : List Ticket) (bs : List (List ℕ))
      → vec_string_tickets_to_vec_binary_tickets p ts ≡ ok bs
      → length bs ≡ length ts
  unfolding vec_string_tickets_to_vec_binary_tickets
  length-binary_tickets [] bs h = ground arith
  length-binary_tickets (t ∷ ts) bs h =
      let (b, eb, r) = >>=-eq-ok (binary_ticket p t) _ h in
      let (cs, ec, q) = >>=-eq-ok (vec_string_tickets_to_vec_binary_tickets p ts) _ r in
      ground (arith, length-binary_tickets ts cs ec)

  save-IsSynced :
      (s : Store) (a : Addr) (i : DepositorStatsInfo) (d : DepositorData) (height : ℕ)
      → i.num_tickets ≡ length d.vec_binary_tickets
      → IsSynced s
      → IsSynced (save_stats (record s { depositor_data = insert a d s.depositor_data }) a i height)
  unfolding save_stats read_depositor_stats read_depositor_data
  save-IsSynced s a i d height e h b =
      let row = (height, i) ∷ or_default [] (lookup a s.depositor_stats) in
      rw (lookup-insert b a row s.depositor_stats, lookup-insert b a d s.depositor_data)
        (ground (arith, h b))

  pub store_depositor_info-Stored :
      (s s' : Store) (a : Addr) (i : DepositorInfo) (height : ℕ)
      → store_depositor_info p s a i height ≡ ok s'
      → Stored s s' a i
  unfolding store_depositor_info read_depositor_stats
  store_depositor_info-Stored s s' a i height h =
      let (bs, eb, q) = >>=-eq-ok (vec_string_tickets_to_vec_binary_tickets p i.tickets) _ h in
      let d : DepositorData = record {
        vec_binary_tickets = bs;
        unbonding_info = i.unbonding_info;
      } in
      let st : DepositorStatsInfo = record {
        shares = i.shares;
        num_tickets = length i.tickets;
        operator_addr = i.operator_addr;
      } in
      let s1 : Store = record s { depositor_data = insert a d s.depositor_data } in
      subst (λ (t : Store). Stored s t a i) (ok-injective q)
        (record {
          frame = save_stats-frame s1 a st height;
          shares_lem = total-save_stats (λ (x : DepositorStatsInfo). x.shares) s1 a st height refl;
          tickets_lem =
              total-save_stats (λ (x : DepositorStatsInfo). x.num_tickets) s1 a st height refl;
          synced = save-IsSynced s a st d height (sym (length-binary_tickets i.tickets bs eb));
        })
