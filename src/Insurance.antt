-- ===== src/Insurance.antt =====
-- pallets/insurance/src/lib.rs: funds are locked, and a vote on a dispute decides who gets them.
pub mod Reserved
use sunshine_node.Prelude.{ℕ, ◌+◌, Bool, is_none, Option, none, length, leb}
use sunshine_node.Word.{add64}
use sunshine_node.Storage.Map
use sunshine_node.Storage.Map.{Map}
use sunshine_node.Storage.Fresh.{next_free}
use sunshine_node.Dispatch.{DispatchError, InsuranceError}
use sunshine_node.Exec.{Exec, pure, raise, gets, lift, ok_or, ensure, modify, ◌>>=◌, ◌>>◌}
use sunshine_node.Util.Organization.{OrgRep}
use sunshine_node.Util.Vote.{VoteOutcome}
use sunshine_node.Util.Meta.{VoteMetadata, org_of}
use sunshine_node.Util.Insurance.{Dispute, DisputeState, can_raise_dispute, set_state}
use sunshine_node.Runtime.{Runtime, Config, Pallet, on_base, on_store, on_ledger, post}
use sunshine_node.Vote

-- The two events that nothing deposits are left out.
pub data InsuranceEvent : Type 0 where
  registered_dispute_with_resolution_path : ℕ → ℕ → ℕ → ℕ → OrgRep → InsuranceEvent
  dispute_raised_and_vote_triggered : ℕ → ℕ → ℕ → ℕ → OrgRep → ℕ → InsuranceEvent

pub record InsuranceStore : Type 0 where
  pub dispute_id_counter : ℕ
  pub open_dispute_counter : ℕ
  pub dispute_states : Map Dispute

abbrev pub State : Type 0 → Type 0
State L = Pallet (Runtime L) InsuranceStore InsuranceEvent

pub record InsuranceTrait : Type 0 where
  pub minimum_dispute_amount : ℕ

abbrev fail : InsuranceError → DispatchError
fail = DispatchError.insurance

unfoldable pub id_is_available : InsuranceStore → ℕ → Bool
id_is_available s id = is_none (Map.get s.dispute_states id)

module _ {L : Type 0} where
  -- The loop has one round more than there are disputes.
  unfoldable pub generate_unique_id : Exec (State L) ℕ
  generate_unique_id = do
    s ← gets (λ s. s.store)
    let id_counter =
        next_free (length s.dispute_states + 1) s.dispute_states (add64 s.dispute_id_counter 1)
    on_store (λ s. record s { dispute_id_counter = id_counter })
    pure id_counter

  abbrev pub put_dispute : ℕ → Dispute → Exec (State L) (Unit {0})
  put_dispute id d = on_store (λ s. record s { dispute_states = Map.insert s.dispute_states id d })

module _ (T : Config) (K : InsuranceTrait) where
  open T use {Origin, ensure_signed, transfer, reserve, unreserve}
  open K use {minimum_dispute_amount}

  unfoldable pub register_dispute_type :
      ℕ → ℕ → ℕ → VoteMetadata OrgRep → Option ℕ → Exec (State T.Ledger) ℕ
  unfolding generate_unique_id
  register_dispute_type locker amount_to_lock dispute_raiser resolution_path expiry = do
    ensure (leb minimum_dispute_amount amount_to_lock)
        (fail InsuranceError.dispute_must_exceed_module_minimum)
    on_base (on_ledger (reserve locker amount_to_lock))
    let new_dispute_state : Dispute = record {
      locker = locker;
      locked_funds = amount_to_lock;
      dispute_raiser = dispute_raiser;
      resolution_metadata = resolution_path;
      state = DisputeState.dispute_not_raised;
      expiry = expiry;
    }
    new_dispute_id ← generate_unique_id
    put_dispute new_dispute_id new_dispute_state
    pure new_dispute_id

  unfoldable pub register_dispute_type_with_resolution_path :
      Origin → ℕ → ℕ → VoteMetadata OrgRep → Option ℕ → Exec (State T.Ledger) (Unit {0})
  unfolding register_dispute_type
  register_dispute_type_with_resolution_path origin amount_to_lock dispute_raiser
        resolution_metadata expiry =
      do
        locker ← lift (ensure_signed origin)
        let court_org = org_of resolution_metadata
        new_dispute_id ←
            register_dispute_type locker amount_to_lock dispute_raiser resolution_metadata expiry
        post (
            InsuranceEvent.registered_dispute_with_resolution_path new_dispute_id locker
              amount_to_lock dispute_raiser court_org)

  abbrev open_by : VoteMetadata OrgRep → Exec (State T.Ledger) ℕ
  open_by (VoteMetadata.signal v) = on_base (Vote.open_vote T none v.org v.threshold v.duration)
  open_by (VoteMetadata.percentage v) =
      on_base (Vote.open_percent_vote T none v.org v.threshold v.duration)

  abbrev raise_from : DisputeState → Dispute → Exec (State T.Ledger) (Dispute × ℕ)
  raise_from DisputeState.dispute_not_raised dispute = do
    new_vote_id ← open_by dispute.resolution_metadata
    pure (
      set_state dispute (DisputeState.dispute_raised_and_vote_dispatched new_vote_id),
      new_vote_id,
    )
  raise_from _ dispute =
      raise (fail InsuranceError.active_dispute_cannot_be_raised_from_current_state)

  unfoldable pub raise_dispute_to_trigger_vote : Origin → ℕ → Exec (State T.Ledger) (Unit {0})
  raise_dispute_to_trigger_vote origin dispute_id = do
    trigger ← lift (ensure_signed origin)
    s ← gets (λ s. s.store)
    dispute ←
        ok_or (Map.get s.dispute_states dispute_id)
          (fail InsuranceError.cannot_raise_dispute_if_dispute_state_dne)
    ensure (can_raise_dispute dispute trigger)
        (fail InsuranceError.signer_not_authorized_to_raise_this_dispute)
    (new_dispute, dispatched_vote_id) ← raise_from dispute.state dispute
    put_dispute dispute_id new_dispute
    post (
        InsuranceEvent.dispute_raised_and_vote_triggered dispute_id new_dispute.locker
          new_dispute.locked_funds trigger (org_of new_dispute.resolution_metadata)
          dispatched_vote_id)

  abbrev release : Dispute → Exec (State T.Ledger) (Unit {0})
  release dispute = on_base (on_ledger (modify (unreserve dispute.locker dispute.locked_funds)))

  abbrev outcome_of : VoteOutcome → ℕ → Dispute → Exec (State T.Ledger) Dispute
  outcome_of VoteOutcome.approved live_vote_id dispute = do
    release dispute
    on_base (on_ledger (transfer dispute.locker dispute.dispute_raiser dispute.locked_funds))
    pure (set_state dispute (DisputeState.dispute_raised_and_accepted live_vote_id))
  outcome_of VoteOutcome.rejected live_vote_id dispute = do
    release dispute
    pure (set_state dispute (DisputeState.dispute_raised_and_rejected live_vote_id))
  outcome_of _ live_vote_id dispute =
      raise (fail InsuranceError.vote_outcome_inconclusive_so_poll_cannot_execute_outcome)

  abbrev poll_from : DisputeState → Dispute → Exec (State T.Ledger) Dispute
  poll_from (DisputeState.dispute_raised_and_vote_dispatched live_vote_id) dispute = do
    outcome ← on_base (Vote.get_vote_outcome live_vote_id)
    outcome_of outcome live_vote_id dispute
  poll_from _ dispute =
      raise (fail InsuranceError.active_dispute_cannot_be_polled_from_current_state)

  unfoldable pub poll_dispute_to_execute_outcome : Origin → ℕ → Exec (State T.Ledger) (Unit {0})
  poll_dispute_to_execute_outcome origin dispute_id = do
    _ ← lift (ensure_signed origin)
    s ← gets (λ s. s.store)
    dispute ←
        ok_or (Map.get s.dispute_states dispute_id)
          (fail InsuranceError.cannot_poll_dispute_if_dispute_state_dne)
    new_dispute_state ← poll_from dispute.state dispute
    put_dispute dispute_id new_dispute_state
