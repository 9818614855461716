-- ===== src/Vote/Calls.antt =====
-- The dispatchable calls of the vote pallet.
use sunshine_node.Prelude.{ℕ, Option}
use sunshine_node.Dispatch.{DispatchError, VoteError}
use sunshine_node.Exec.{gets, lift, ensure, ◌>>=◌, ◌>>◌}
use sunshine_node.Util.Organization.{OrgRep, org}
use sunshine_node.Util.Vote.{Threshold, ThresholdInput, VoterView}
use sunshine_node.Runtime.{Config, Call, deposit_event, Event, VoteEvent}
use sunshine_node.Org
use sunshine_node.Vote.Base.{register_threshold}
use sunshine_node.Vote.Open.{open_vote, open_percent_vote}
use sunshine_node.Vote.Ballot.{vote_on_proposal}

module _ (T : Config) where
  open T use {Origin, ensure_signed}

  unfoldable pub create_signal_vote :
      Origin → Option ℕ → OrgRep → Threshold → Option ℕ → Call T (Unit {0})
  create_signal_vote origin topic organization threshold duration = do
    vote_creator ← lift (ensure_signed origin)
    s ← gets (λ s. s.org)
    let authentication = Org.is_organization_supervisor s (org organization) vote_creator
    ensure authentication
        (DispatchError.vote VoteError.not_authorized_to_create_vote_for_organization)
    new_vote_id ← open_vote T topic organization threshold duration
    deposit_event (Event.vote (VoteEvent.new_vote_started vote_creator new_vote_id))

  unfoldable pub create_percent_vote :
      Origin → Option ℕ → OrgRep → Threshold → Option ℕ → Call T (Unit {0})
  create_percent_vote origin topic organization threshold duration = do
    vote_creator ← lift (ensure_signed origin)
    s ← gets (λ s. s.org)
    let authentication = Org.is_organization_supervisor s (org organization) vote_creator
    ensure authentication
        (DispatchError.vote VoteError.not_authorized_to_create_vote_for_organization)
    new_vote_id ← open_percent_vote T topic organization threshold duration
    deposit_event (Event.vote (VoteEvent.new_vote_started vote_creator new_vote_id))

  unfoldable pub set_threshold_default : Origin → ThresholdInput OrgRep → Call T (Unit {0})
  set_threshold_default origin threshold = do
    setter ← lift (ensure_signed origin)
    s ← gets (λ s. s.org)
    ensure (Org.is_organization_supervisor s (org threshold.org) setter)
        (DispatchError.vote VoteError.only_supervisor_can_set_generic_thresholds)
    id ← register_threshold threshold
    deposit_event (Event.vote (VoteEvent.threshold_set id))

  unfoldable pub submit_vote : Origin → ℕ → VoterView → Option ℕ → Call T (Unit {0})
  submit_vote origin vote_id direction justification = do
    voter ← lift (ensure_signed origin)
    vote_on_proposal vote_id voter direction justification
    deposit_event (Event.vote (VoteEvent.voted vote_id voter direction))
