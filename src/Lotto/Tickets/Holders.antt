-- ===== src/Lotto/Tickets/Holders.antt =====
-- The holders of each ticket after a purchase.
use glow_contracts.Base.{
  ℕ, ◌≤◌, ◌<◌, zero, suc, ◌≡◌, List, [], ◌∷◌, ◌++◌, ok, arith, text_beq, text_beq_iff, text_eq,
  length, length-append, if◌then◌else◌, Option-cases, inl, inr, >>=-eq-ok,
}
use mathlib.Core.List.{append-nil, append_assoc}
use glow_contracts.Dict.{lookup, lookup-insert_in_order}
use glow_contracts.Lotto.Types.{Store, Config, DepositorInfo, Addr, Ticket}
use glow_contracts.Lotto.Storage.{or_default}
use glow_contracts.Lotto.Tickets.{add_holder, add_holders, text_before}

abbrev pub holders : Store → Ticket → List Addr
holders s t = or_default [] (lookup t s.tickets)

-- How often a ticket is in a list.
abbrev pub count : Ticket → List Ticket → ℕ
count t [] = 0
count t (u ∷ us) = if text_beq u t then suc (count t us) else count t us

abbrev pub replicate : ℕ → Addr → List Addr
replicate zero a = []
replicate (suc n) a = a ∷ replicate n a

module _ (config : Config) (depositor : Addr) where
  pub add_holder-holders :
      (s s' : Store) (u t : Ticket)
      → add_holder config depositor s u ≡ ok s'
      → holders s' t ≡ holders s t ++ (if text_beq u t then depositor ∷ [] else [])
  unfolding add_holder
  add_holder-holders s s' u t h = elim (Option-cases (lookup u s.tickets)) [
    | inl e ↦ ground (
      arith,
      lookup-insert_in_order text_before t u (depositor ∷ []) s.tickets,
      text_beq_iff u t,
      append-nil (holders s t),
    )
    | inr (l, e) ↦ ground (
      arith,
      lookup-insert_in_order text_before t u (l ++ depositor ∷ []) s.tickets,
      text_beq_iff u t,
      append-nil (holders s t),
    )
  ]

  add_holder-frame :
      (s s' : Store) (u : Ticket)
      → add_holder config depositor s u ≡ ok s'
      → s' ≡ record s { tickets = s'.tickets }
  unfolding add_holder
  add_holder-frame s s' u h = ground arith

  add_holder_bounded :
      (s s' : Store) (u t : Ticket)
      → 0 < config.max_holders
      → add_holder config depositor s u ≡ ok s'
      → length (holders s t) ≤ config.max_holders
      → length (holders s' t) ≤ config.max_holders
  unfolding add_holder
  add_holder_bounded s s' u t pos h b = elim (Option-cases (lookup u s.tickets)) [
    | inl e ↦
        ground (
          arith,
          lookup-insert_in_order text_before t u (depositor ∷ []) s.tickets,
          text_beq_iff u t,
        )
    | inr (l, e) ↦ ground (
      arith,
      lookup-insert_in_order text_before t u (l ++ depositor ∷ []) s.tickets,
      text_beq_iff u t,
      length-append l (depositor ∷ []),
    )
  ]

  -- A purchase appends its combinations to the depositor's tickets, in order, changes nothing of
  -- the storage but the holders, and gives each ticket the depositor as a holder as often as it
  -- was bought.
  pub add_holders_lem :
      (ts : List Ticket) (s s' : Store) (i i' : DepositorInfo)
      → add_holders config depositor ts s i ≡ ok (s', i')
      → (i' ≡ record i { tickets = i.tickets ++ ts })
        × (s' ≡ record s { tickets = s'.tickets })
        × ((t : Ticket) → holders s' t ≡ holders s t ++ replicate (count t ts) depositor)
  unfolding add_holders
  add_holders_lem [] s s' i i' h = (
    ground (arith, append-nil i.tickets),
    ground arith,
    λ t. ground (arith, append-nil (holders s t)),
  )
  add_holders_lem (u ∷ us) s s' i i' h =
      let (s1, e, r) = >>=-eq-ok (add_holder config depositor s u) _ h in
      let i1 : DepositorInfo = record i { tickets = i.tickets ++ u ∷ [] } in
      let (info, frame, held) = add_holders_lem us s1 s' i1 i' r in
      (
        ground (arith, append_assoc i.tickets (u ∷ []) us),
        ground (arith, add_holder-frame s s1 u e),
        λ t. ground (
          arith,
          held t,
          add_holder-holders s s1 u t e,
          append_assoc (holders s t) (depositor ∷ []) (replicate (count t us) depositor),
          append_assoc (holders s t) [] (replicate (count t us) depositor),
        ),
      )

  -- No ticket gets more holders than the configured maximum, if none has more already.
  pub add_holders_bounded :
      (ts : List Ticket) (s s' : Store) (i i' : DepositorInfo)
      → 0 < config.max_holders
      → add_holders config depositor ts s i ≡ ok (s', i')
      → ((t : Ticket) → length (holders s t) ≤ config.max_holders)
      → (t : Ticket) → length (holders s' t) ≤ config.max_holders
  unfolding add_holders
  add_holders_bounded [] s s' i i' pos h b = λ t. ground (arith, b t)
  add_holders_bounded (u ∷ us) s s' i i' pos h b =
      let (s1, e, r) = >>=-eq-ok (add_holder config depositor s u) _ h in
      add_holders_bounded us s1 s' (record i { tickets = i.tickets ++ u ∷ [] }) i' pos r
        (λ t. add_holder_bounded s s1 u t pos e (b t))
