-- ===== src/Insurance/Reserved.antt =====
-- What becomes of the funds that a dispute locks.
use sunshine_node.Prelude.{ℕ, ◌≡◌, ◌⊎◌, refl, inl, inr, some, Bool-cases}
use sunshine_node.Storage.Map
use sunshine_node.Dispatch.{Result-cases}
use sunshine_node.Util.Insurance.{Dispute, DisputeState, can_raise_dispute}
use sunshine_node.Runtime.{Config}
use sunshine_node.Insurance.{
  State, InsuranceTrait, raise_dispute_to_trigger_vote, poll_dispute_to_execute_outcome,
}

-- A dispute that is decided.
abbrev pub IsSettled : DisputeState → Type 0
IsSettled state =
    ((v : ℕ) × (state ≡ DisputeState.dispute_raised_and_accepted v))
    ⊎ ((v : ℕ) × (state ≡ DisputeState.dispute_raised_and_rejected v))

module _ (T : Config) (K : InsuranceTrait) (s : State T.Ledger) (origin : T.Origin) (id : ℕ)
    (d : Dispute) (found : Map.get s.store.dispute_states id ≡ some d) where
  settled_raise : IsSettled d.state → (raise_dispute_to_trigger_vote T K origin id s).1 ≡ s
  unfolding raise_dispute_to_trigger_vote
  settled_raise settled = elim (Result-cases (T.ensure_signed origin)) [
    | inr (e, unsigned) ↦ rw unsigned refl
    | inl (who, signed) ↦ elim (Bool-cases (can_raise_dispute d who)) [
      | inr stranger ↦ rw (signed, found, stranger) refl
      | inl may ↦ elim settled [
        | inl (v, accepted) ↦ rw (signed, found, may, accepted) refl
        | inr (v, rejected) ↦ rw (signed, found, may, rejected) refl
      ]
    ]
  ]

  settled_poll : IsSettled d.state → (poll_dispute_to_execute_outcome T K origin id s).1 ≡ s
  unfolding poll_dispute_to_execute_outcome
  settled_poll settled = elim (Result-cases (T.ensure_signed origin)) [
    | inr (e, unsigned) ↦ rw unsigned refl
    | inl (who, signed) ↦ elim settled [
      | inl (v, accepted) ↦ rw (signed, found, accepted) refl
      | inr (v, rejected) ↦ rw (signed, found, rejected) refl
    ]
  ]

  -- A dispute that was accepted or rejected stays so, and its funds are unlocked and paid no second
  -- time: raising it and polling it leave the whole state as it is.
  pub settled_dispute_rests :
      IsSettled d.state
      → ((raise_dispute_to_trigger_vote T K origin id s).1 ≡ s)
        × ((poll_dispute_to_execute_outcome T K origin id s).1 ≡ s)
  settled_dispute_rests settled = (settled_raise settled, settled_poll settled)
