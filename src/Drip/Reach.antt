-- ===== src/Drip/Reach.antt =====
-- The calls of the drip pallet and its hook as a step relation: the hook never panics.
use sunshine_node.Prelude.{
  ℕ, ◌%◌, ◌<◌, ◌≡◌, refl, sym, ◌∙◌, subst, inl, inr, false, Option, none, some, [], ◌∷◌, arith, ltb,
  ltb→lt, ◌==◌, some-injective, Bool-cases, Option-cases,
}
use sunshine_node.Storage.Map
use sunshine_node.Storage.Map.{Map}
use sunshine_node.Dispatch.{Result-cases}
use sunshine_node.Util.Drip.{Drip, DripRate}
use sunshine_node.Runtime.{Config, Money}
use sunshine_node.Drip.{
  State, DripStore, first_next_block_mod_period_is_zero, generate_unique_id, start_drip,
  cancel_drip, pay, pay_due, on_finalize,
}

-- A drip pays something, in a period, to somebody else.
pub record IsDripping (d : Drip) : Type 0 where
  pub has_period : (d.rate.period_length == 0) ≡ false
  pub has_amount : 0 < d.rate.amount
  pub to_another : (d.source == d.destination) ≡ false

abbrev pub AllDripping : Map Drip → Type 0
AllDripping [] = Unit
AllDripping ((id, d) ∷ m) = IsDripping d × AllDripping m

insert-AllDripping :
    (m : Map Drip) (id : ℕ) (d : Drip)
    → AllDripping m
    → IsDripping d
    → AllDripping (Map.insert m id d)
unfolding Map.insert
insert-AllDripping [] id d all is = (is, tt)
insert-AllDripping ((j, e) ∷ m) id d all is = elim (Bool-cases (j == id)) [
  | inl same ↦ rw same (is, all.1)
  | inr other ↦ rw other (all.0, insert-AllDripping m id d all.1 is)
]

remove-AllDripping : (m : Map Drip) (id : ℕ) → AllDripping m → AllDripping (Map.remove m id)
unfolding Map.remove
remove-AllDripping [] id all = tt
remove-AllDripping ((j, e) ∷ m) id all = elim (Bool-cases (j == id)) [
  | inl same ↦ rw same (remove-AllDripping m id all.1)
  | inr other ↦ rw other (all.0, remove-AllDripping m id all.1)
]

nothing : {b : ℕ} → ◌≡◌ {A = Option ℕ} none (some b) → ⊥
nothing h = ground arith

-- A payment block is found for a period that is not zero only.
first_block-period :
    (now period b : ℕ)
    → first_next_block_mod_period_is_zero now period ≡ some b
    → (period == 0) ≡ false
unfolding first_next_block_mod_period_is_zero
first_block-period now period b h = elim (Bool-cases (period == 0)) [
  | inl zero_long ↦ absurd (nothing (rw zero_long at h))
  | inr long ↦ long
]

module _ (T : Config) where
  pay-store : (d : Drip) (s : State T.Ledger) → (pay T d s).1.store ≡ s.store
  unfolding pay
  pay-store d s =
      elim (Result-cases (T.transfer d.source d.destination d.rate.amount s.base.ledger).0) [
        | inr (e, refused) ↦ rw refused refl
        | inl paid ↦ rw paid.1 refl
      ]

  -- The loop comes back where every period is not zero, and leaves the drips as they are.
  pay_due-total :
      (now : ℕ) (m : Map Drip) (s : State T.Ledger)
      → AllDripping m
      → (t : State T.Ledger) × (pay_due T now m s ≡ some t) × (t.store ≡ s.store)
  unfolding pay_due
  pay_due-total now [] s all = (s, refl, refl)
  pay_due-total now ((id, d) ∷ m) s (is, all) =
      elim (Bool-cases (now % d.rate.period_length == 0)) [
        | inl due ↦
            let (t, comes, same) = pay_due-total now m (pay T d s).1 all in
            (t, rw (is.has_period, due) comes, same ∙ pay-store d s)
        | inr later ↦
            let (t, comes, same) = pay_due-total now m s all in
            (t, rw (is.has_period, later) comes, same)
      ]

  module _ (s : State T.Ledger) (all : AllDripping s.store.drips) (origin : T.Origin) where
    start-AllDripping :
        (destination : ℕ) (rate : DripRate)
        → AllDripping (start_drip T origin destination rate s).1.store.drips
    unfolding start_drip generate_unique_id
    start-AllDripping destination rate = elim (Result-cases (T.ensure_signed origin)) [
      | inr (e, unsigned) ↦ rw unsigned all
      | inl (who, signed) ↦
          elim (Option-cases
            (first_next_block_mod_period_is_zero s.base.block_number rate.period_length)) [
              | inl never ↦ rw (signed, never) all
              | inr (b, first) ↦ elim (Bool-cases (who == destination)) [
                | inl self ↦ rw (signed, first, self) all
                | inr other ↦ elim (Bool-cases (ltb 0 rate.amount)) [
                  | inr nothing ↦ rw (signed, first, other, nothing) all
                  | inl something ↦
                      rw (signed, first, other, something)
                        (insert-AllDripping s.store.drips _
                          (record { source = who; destination = destination; rate = rate }) all
                          (record {
                            has_period =
                                first_block-period s.base.block_number rate.period_length b first;
                            has_amount = ltb→lt 0 rate.amount something;
                            to_another = other;
                          }))
                ]
              ]
            ]
    ]

    cancel-AllDripping : (id : ℕ) → AllDripping (cancel_drip T origin id s).1.store.drips
    unfolding cancel_drip
    cancel-AllDripping id = elim (Result-cases (T.ensure_signed origin)) [
      | inr (e, unsigned) ↦ rw unsigned all
      | inl (who, signed) ↦ elim (Option-cases (Map.get s.store.drips id)) [
        | inl absent ↦ rw (signed, absent) all
        | inr (d, found) ↦ elim (Bool-cases (d.source == who)) [
          | inr stranger ↦ rw (signed, found, stranger) all
          | inl own ↦ rw (signed, found, own) (remove-AllDripping s.store.drips id all)
        ]
      ]
    ]

-- What can happen to the pallet: its calls, in any order and by anybody, its hook, and between them
-- new blocks and whatever other pallets do to the currency.
pub data Step (T : Config) (s : State T.Ledger) : State T.Ledger → Type 0 where
  start :
      (origin : T.Origin) (destination : ℕ) (rate : DripRate)
      → Step T s (start_drip T origin destination rate s).1
  cancel : (origin : T.Origin) (id : ℕ) → Step T s (cancel_drip T origin id s).1
  finalize : (t : State T.Ledger) → on_finalize T s ≡ some t → Step T s t
  elsewhere : (base : Money T.Ledger) → Step T s (record s { base = base })

pub data Reachable (T : Config) : State T.Ledger → Type 0 where
  begin : (s : State T.Ledger) → s.store.drips ≡ [] → Reachable T s
  next : {s t : State T.Ledger} → Reachable T s → Step T s t → Reachable T t

module _ (T : Config) where
  finalize-total :
      (s : State T.Ledger)
      → AllDripping s.store.drips
      → (t : State T.Ledger) × (on_finalize T s ≡ some t) × (t.store ≡ s.store)
  unfolding on_finalize
  finalize-total s all = pay_due-total T s.base.block_number s.store.drips s all

  Reachable-AllDripping : {s : State T.Ledger} → Reachable T s → AllDripping s.store.drips
  Reachable-AllDripping (begin s no_drip) = subst AllDripping (sym no_drip) tt
  Reachable-AllDripping (next {s} r (start origin destination rate)) =
      start-AllDripping T s (Reachable-AllDripping r) origin destination rate
  Reachable-AllDripping (next {s} r (cancel origin id)) =
      cancel-AllDripping T s (Reachable-AllDripping r) origin id
  Reachable-AllDripping (next {s} r (finalize t h)) =
      let (u, comes, same) = finalize-total s (Reachable-AllDripping r) in
      subst (λ (v : State T.Ledger). AllDripping v.store.drips) (some-injective u t (sym comes ∙ h))
        (subst (λ (v : DripStore). AllDripping v.drips) (sym same) (Reachable-AllDripping r))
  Reachable-AllDripping (next {s} r (elsewhere base)) = Reachable-AllDripping r

  -- In every state that the calls and the hook of the pallet lead to from one without drips, in any
  -- order and by anybody, the hook at the end of a block comes back, without the panic of a remainder
  -- by zero, and keeps all drips.
  pub Reachable-on_finalize :
      {s : State T.Ledger}
      → Reachable T s
      → (t : State T.Ledger) × (on_finalize T s ≡ some t) × (t.store ≡ s.store)
  Reachable-on_finalize {s} r = finalize-total s (Reachable-AllDripping r)
