-- ===== src/Grant/Paid.antt =====
-- What is approved is paid once: the milestones of a grant.
use sunshine_node.Prelude.{ℕ, ◌≡◌, refl, inl, inr, none, some, false}
use sunshine_node.Storage.DoubleMap
use sunshine_node.Dispatch.{Result-cases}
use sunshine_node.Util.Grant.{
  MilestoneSubmission, MilestoneStatus, milestone_awaits, milestone_reviewed_by,
}
use sunshine_node.Runtime.{Config}
use sunshine_node.Grant.Base.{State, GrantTrait}
use sunshine_node.Grant.Milestones.{trigger_milestone_review, approve_milestone, reject_milestone}
use sunshine_node.Grant.Finalize.{poll_milestone}

-- A milestone that was approved.
abbrev pub IsApproved : MilestoneStatus → Type 0
IsApproved MilestoneStatus.submitted_awaiting_response = ⊥
IsApproved (MilestoneStatus.submitted_review_started v) = ⊥
IsApproved MilestoneStatus.approved_but_not_transferred = Unit
IsApproved MilestoneStatus.approved_and_transfer_executed = Unit

module _ (T : Config) (K : GrantTrait) (s : State T.Ledger) (aid mid : ℕ) (m : MilestoneSubmission)
    (found : DoubleMap.get s.store.milestones aid mid ≡ some m) where
  awaits_not :
      (state : MilestoneStatus)
      → IsApproved state
      → (milestone_awaits state ≡ false) × (milestone_reviewed_by state ≡ none)
  awaits_not MilestoneStatus.submitted_awaiting_response f = absurd f
  awaits_not (MilestoneStatus.submitted_review_started v) f = absurd f
  awaits_not MilestoneStatus.approved_but_not_transferred f = (refl, refl)
  awaits_not MilestoneStatus.approved_and_transfer_executed f = (refl, refl)

  -- A milestone that was approved is not paid again, whether the payment had gone through or not:
  -- an approval, a rejection, a review and a poll each leave the whole state as it is.
  pub approved_milestone_rests :
      (origin : T.Origin)
      → IsApproved m.state
      → ((approve_milestone T K origin aid mid s).1 ≡ s)
        × ((reject_milestone T K origin aid mid s).1 ≡ s)
        × ((trigger_milestone_review T K origin aid mid s).1 ≡ s)
        × ((poll_milestone T K (aid, mid, m) s).1 ≡ s)
  unfolding approve_milestone reject_milestone trigger_milestone_review poll_milestone
  approved_milestone_rests origin approved =
      let (waits, unreviewed) = awaits_not m.state approved in
      let poll : (poll_milestone T K (aid, mid, m) s).1 ≡ s = rw unreviewed refl in
      elim (Result-cases (T.ensure_signed origin)) [
        | inr (e, unsigned) ↦ rw unsigned (refl, refl, refl, poll)
        | inl (who, signed) ↦ rw (signed, found, waits) (refl, refl, refl, poll)
      ]
