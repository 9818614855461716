-- ===== src/Moloch/Payment.antt =====
-- What is approved is done once: the spends and the memberships of a moloch.
use sunshine_node.Prelude.{ℕ, ◌≡◌, refl, inl, inr, some, Option-cases, Bool-cases}
use sunshine_node.Storage.Map
use sunshine_node.Storage.DoubleMap
use sunshine_node.Util.Bank.{BankState, SpendProposal, SpendState, is_controller}
use sunshine_node.Util.Moloch.{MembershipProposal, ProposalState}
use sunshine_node.Runtime.{Config}
use sunshine_node.Org
use sunshine_node.Bank.Moves.{IsFinal}
use sunshine_node.Moloch.Base.{State}
use sunshine_node.Moloch.Spend
use sunshine_node.Moloch.Spend.{
  trigger_vote_on_spend_proposal, approve_spend_by_sudo, poll_spend_proposal,
}
use sunshine_node.Moloch.Membership
use sunshine_node.Moloch.Membership.{trigger_vote_on_member_proposal, poll_membership_proposal}

-- A membership that was approved.
abbrev pub IsDecided : ProposalState → Type 0
IsDecided ProposalState.waiting_for_approval = ⊥
IsDecided (ProposalState.voting v) = ⊥
IsDecided ProposalState.approved_but_not_executed = Unit
IsDecided ProposalState.approved_and_executed = Unit

module _ (T : Config) (s : State T.Ledger) (b i : ℕ) where
  module _ (p : SpendProposal) where
    approve_final :
        (state : SpendState) → IsFinal state → (Spend.approve_from T state b i p s).1 ≡ s
    approve_final SpendState.waiting_for_approval f = absurd f
    approve_final (SpendState.voting v) f = absurd f
    approve_final SpendState.approved_but_not_executed f = refl
    approve_final SpendState.approved_and_executed f = refl

    trigger_final :
        (state : SpendState) (id : ℕ)
        → IsFinal state
        → (Spend.trigger_from T state id b i p s).1 ≡ s
    trigger_final SpendState.waiting_for_approval id f = absurd f
    trigger_final (SpendState.voting v) id f = absurd f
    trigger_final SpendState.approved_but_not_executed id f = refl
    trigger_final SpendState.approved_and_executed id f = refl

    poll_final : (state : SpendState) → IsFinal state → (Spend.poll_from T state p s).1 ≡ s
    poll_final SpendState.waiting_for_approval f = absurd f
    poll_final (SpendState.voting v) f = absurd f
    poll_final SpendState.approved_but_not_executed f = refl
    poll_final SpendState.approved_and_executed f = refl

    -- A spend from a moloch that was approved is not paid again, whether the payment had gone through
    -- or not: an approval by the controller, a vote and a poll each leave the whole state as it is.
    pub approved_spend_rests :
        (caller : ℕ)
        → DoubleMap.get s.store.spend_props b i ≡ some p
        → IsFinal p.state
        → ((approve_spend_by_sudo T caller b i s).1 ≡ s)
          × ((trigger_vote_on_spend_proposal T caller b i s).1 ≡ s)
          × ((poll_spend_proposal T p s).1 ≡ s)
    unfolding approve_spend_by_sudo trigger_vote_on_spend_proposal poll_spend_proposal
    approved_spend_rests caller found final = (
      elim (Option-cases (Map.get s.store.bank_stores b)) [
        | inl e ↦ rw e refl
        | inr (x, e) ↦ elim (Bool-cases (is_controller x caller)) [
          | inl f ↦ rw (e, f, found) (approve_final p.state final)
          | inr f ↦ rw (e, f) refl
        ]
      ],
      elim (Option-cases (Map.get s.store.bank_stores b)) [
        | inl e ↦ rw e refl
        | inr (x, e) ↦ elim (Bool-cases (Org.is_member_of_group s.base.org x.org caller)) [
          | inl f ↦ rw (e, found, f) (trigger_final p.state x.threshold_id final)
          | inr f ↦ rw (e, found, f) refl
        ]
      ],
      elim (Option-cases (Map.get s.store.bank_stores p.id.0)) [
        | inl e ↦ rw e refl
        | inr (x, e) ↦ elim (Option-cases (DoubleMap.get s.store.spend_props p.id.0 p.id.1)) [
          | inl g ↦ rw (e, g) refl
          | inr (q, g) ↦ rw (e, g) (poll_final p.state final)
        ]
      ],
    )

  module _ (p : MembershipProposal) where
    trigger_decided :
        (state : ProposalState) (id : ℕ)
        → IsDecided state
        → (Membership.trigger_from T state id b i p s).1 ≡ s
    trigger_decided ProposalState.waiting_for_approval id f = absurd f
    trigger_decided (ProposalState.voting v) id f = absurd f
    trigger_decided ProposalState.approved_but_not_executed id f = refl
    trigger_decided ProposalState.approved_and_executed id f = refl

    poll_decided :
        (state : ProposalState) (x : BankState)
        → IsDecided state
        → (Membership.poll_from T state x p s).1 ≡ s
    poll_decided ProposalState.waiting_for_approval x f = absurd f
    poll_decided (ProposalState.voting v) x f = absurd f
    poll_decided ProposalState.approved_but_not_executed x f = refl
    poll_decided ProposalState.approved_and_executed x f = refl

    -- A membership that was approved is not executed again, whether the tribute had been paid or not:
    -- a vote and a poll each leave the whole state as it is, so that no tribute is taken and no share
    -- issued a second time.
    pub approved_member_rests :
        (caller : ℕ)
        → DoubleMap.get s.store.member_props b i ≡ some p
        → IsDecided p.state
        → ((trigger_vote_on_member_proposal T caller b i s).1 ≡ s)
          × ((poll_membership_proposal T p s).1 ≡ s)
    unfolding trigger_vote_on_member_proposal poll_membership_proposal
    approved_member_rests caller found decided = (
      elim (Option-cases (Map.get s.store.bank_stores b)) [
        | inl e ↦ rw e refl
        | inr (x, e) ↦ elim (Bool-cases (Org.is_member_of_group s.base.org x.org caller)) [
          | inl f ↦ rw (e, f, found) (trigger_decided p.state x.threshold_id decided)
          | inr f ↦ rw (e, f) refl
        ]
      ],
      elim (Option-cases (Map.get s.store.bank_stores p.id.0)) [
        | inl e ↦ rw e refl
        | inr (x, e) ↦ elim (Option-cases (DoubleMap.get s.store.member_props p.id.0 p.id.1)) [
          | inl g ↦ rw (e, g) refl
          | inr (q, g) ↦ rw (e, g) (poll_decided p.state x decided)
        ]
      ],
    )
