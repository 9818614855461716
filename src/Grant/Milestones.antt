-- ===== src/Grant/Milestones.antt =====
-- The dispatchable calls of the grant pallet on milestones.
use sunshine_node.Prelude.{ℕ, not}
use sunshine_node.Storage.Map
use sunshine_node.Storage.DoubleMap
use sunshine_node.Dispatch.{GrantError}
use sunshine_node.Exec.{Exec, gets, lift, ok_or, ensure, ◌>>=◌, ◌>>◌}
use sunshine_node.Util.Meta.{is_sudo}
use sunshine_node.Util.Grant.{
  Recipient, MilestoneStatus, MilestoneSubmission, is_live, new_milestone, set_milestone,
  milestone_awaits,
}
use sunshine_node.Runtime.{Config, on_store, post}
use sunshine_node.Grant.Base.{
  GrantEvent, State, GrantTrait, fail, foundation_id_is_available, milestone_generate_uid,
  approve_milestone_and_try_transfer,
}
use sunshine_node.Grant.Calls.{may_trigger, open_by}

module _ {L : Type 0} where
  abbrev pub put_milestone : ℕ → ℕ → MilestoneSubmission → Exec (State L) (Unit {0})
  put_milestone application_id id m =
      on_store (λ s. record s { milestones = DoubleMap.insert s.milestones application_id id m })

module _ (T : Config) (K : GrantTrait) where
  open T use {Origin, ensure_signed}

  -- The foundation is the one that the caller names, not the one of the application.
  unfoldable pub submit_milestone :
      Origin → ℕ → ℕ → ℕ → Recipient → ℕ → Exec (State T.Ledger) (Unit {0})
  unfolding foundation_id_is_available milestone_generate_uid
  submit_milestone origin foundation_id application_id submission_ref recipient amount_requested =
      do
        _ ← lift (ensure_signed origin)
        s ← gets (λ s. s.store)
        ensure (not (foundation_id_is_available s foundation_id)) (fail GrantError.foundation_dne)
        application ←
            ok_or (Map.get s.applications application_id) (fail GrantError.application_dne)
        ensure (is_live application.state)
            (fail GrantError.application_must_be_approved_to_submit_milestone)
        let milestone =
            new_milestone (foundation_id, application_id) submission_ref recipient amount_requested
        id ← milestone_generate_uid application_id
        put_milestone application_id id milestone
        post (
            GrantEvent.milestone_submitted foundation_id application_id id recipient
              amount_requested submission_ref)

  unfoldable pub trigger_milestone_review : Origin → ℕ → ℕ → Exec (State T.Ledger) (Unit {0})
  trigger_milestone_review origin application_id milestone_id = do
    trigger_er ← lift (ensure_signed origin)
    s ← gets (λ s. s)
    mile ←
        ok_or (DoubleMap.get s.store.milestones application_id milestone_id)
          (fail GrantError.milestone_dne)
    ensure (milestone_awaits mile.state)
        (fail GrantError.milestone_not_in_valid_state_to_trigger_review)
    foundation ← ok_or (Map.get s.store.foundations mile.base.0) (fail GrantError.foundation_dne)
    ensure (may_trigger s.base.org foundation.gov.vote foundation.gov trigger_er)
        (fail GrantError.not_authorized_to_trigger_milestone_review)
    vote ← ok_or foundation.gov.vote (fail GrantError.not_authorized_to_trigger_milestone_review)
    new_vote_id ← open_by T vote mile.submission
    put_milestone application_id milestone_id
        (set_milestone mile (MilestoneStatus.submitted_review_started new_vote_id))
    post (GrantEvent.milestone_review_triggered mile.base.0 application_id milestone_id new_vote_id)

  unfoldable pub approve_milestone : Origin → ℕ → ℕ → Exec (State T.Ledger) (Unit {0})
  unfolding approve_milestone_and_try_transfer
  approve_milestone origin application_id milestone_id = do
    purported_sudo ← lift (ensure_signed origin)
    s ← gets (λ s. s.store)
    mile ←
        ok_or (DoubleMap.get s.milestones application_id milestone_id)
          (fail GrantError.milestone_dne)
    ensure (milestone_awaits mile.state) (fail GrantError.milestone_not_in_valid_state_to_approve)
    foundation ← ok_or (Map.get s.foundations mile.base.0) (fail GrantError.foundation_dne)
    ensure (is_sudo foundation.gov purported_sudo)
        (fail GrantError.not_authorized_to_approve_milestone)
    new_mile ← approve_milestone_and_try_transfer T K mile
    put_milestone application_id milestone_id new_mile
    post (GrantEvent.milestone_approved mile.base.0 application_id milestone_id mile.submission)

  unfoldable pub reject_milestone : Origin → ℕ → ℕ → Exec (State T.Ledger) (Unit {0})
  reject_milestone origin application_id milestone_id = do
    purported_sudo ← lift (ensure_signed origin)
    s ← gets (λ s. s.store)
    mile ←
        ok_or (DoubleMap.get s.milestones application_id milestone_id)
          (fail GrantError.milestone_dne)
    ensure (milestone_awaits mile.state) (fail GrantError.milestone_not_in_valid_state_to_reject)
    foundation ← ok_or (Map.get s.foundations mile.base.0) (fail GrantError.foundation_dne)
    ensure (is_sudo foundation.gov purported_sudo)
        (fail GrantError.not_authorized_to_reject_milestone)
    on_store
        (λ s. record s { milestones = DoubleMap.remove s.milestones application_id milestone_id })
    post (GrantEvent.milestone_rejected mile.base.0 application_id milestone_id)
