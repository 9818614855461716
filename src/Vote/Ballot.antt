-- ===== src/Vote/Ballot.antt =====
-- `impl UpdateVote` and `impl VoteOnProposal` of the vote pallet.
use sunshine_node.Prelude.{ℕ, Bool, not, Option, none, some, ltb, if◌then◌else◌}
use sunshine_node.Word.{add32}
use sunshine_node.Storage.Map
use sunshine_node.Storage.DoubleMap
use sunshine_node.Dispatch.{DispatchError, VoteError}
use sunshine_node.Exec.{Exec, gets, ok_or, ensure, when, ◌>>=◌, ◌>>◌}
use sunshine_node.Util.Vote.{
  VoterView, set_new_view, apply, set_ends, update_topic_and_clear_state,
  update_topic_without_clearing_state,
}
use sunshine_node.Runtime.{Runtime}
use sunshine_node.Vote.Base.{on_vote, put_vote_state, check_vote_expired}

abbrev pub extended : Option ℕ → ℕ → Bool
extended none new_end_time = Bool.false
extended (some e) new_end_time = ltb e new_end_time

module _ {L : Type 0} where
  unfoldable pub update_vote_topic : ℕ → ℕ → Bool → Exec (Runtime L) (Unit {0})
  update_vote_topic vote_id new_topic clear_previous_vote_state = do
    s ← gets (λ s. s.vote)
    old_vote_state ←
        ok_or (Map.get s.vote_states vote_id)
          (DispatchError.vote VoteError.cannot_update_vote_if_vote_state_dne)
    let new_vote_state =
        if clear_previous_vote_state
        then update_topic_and_clear_state old_vote_state new_topic
        else update_topic_without_clearing_state old_vote_state new_topic
    put_vote_state vote_id new_vote_state

  unfoldable pub extend_vote_length : ℕ → ℕ → Exec (Runtime L) (Unit {0})
  extend_vote_length vote_id blocks_from_now = do
    now ← gets (λ s. s.block_number)
    let new_end_time = add32 now blocks_from_now
    s ← gets (λ s. s.vote)
    pvs ←
        ok_or (Map.get s.vote_states vote_id)
          (DispatchError.vote VoteError.cannot_update_vote_if_vote_state_dne)
    when (extended pvs.ends new_end_time) (put_vote_state vote_id (set_ends pvs new_end_time))

  unfoldable pub vote_on_proposal : ℕ → ℕ → VoterView → Option ℕ → Exec (Runtime L) (Unit {0})
  vote_on_proposal vote_id voter direction justification = do
    now ← gets (λ s. s.block_number)
    s ← gets (λ s. s.vote)
    vote_state ←
        ok_or (Map.get s.vote_states vote_id)
          (DispatchError.vote VoteError.no_vote_state_for_vote_request)
    ensure (not (check_vote_expired now vote_state))
        (DispatchError.vote VoteError.vote_past_expiration_time_so_votes_not_accepted)
    old_vote ←
        ok_or (DoubleMap.get s.vote_logger vote_id voter)
          (DispatchError.vote VoteError.signal_not_minted_for_voter)
    new_vote ←
        ok_or (set_new_view old_vote direction justification)
          (DispatchError.vote VoteError.old_vote_direction_equals_new_vote_direction_so_no_change)
    new_state ←
        ok_or (apply vote_state old_vote.magnitude old_vote.direction direction)
          (DispatchError.vote VoteError.vote_change_not_supported)
    on_vote (λ s. record s { vote_logger = DoubleMap.insert s.vote_logger vote_id voter new_vote })
    put_vote_state vote_id new_state
