-- ===== src/Vote/Base.antt =====
-- Thresholds, identifiers and queries of the vote pallet.
use sunshine_node.Prelude.{ℕ, ◌+◌, Bool, true, false, ◌&&◌, Option, none, some, length, leb, ltb}
use sunshine_node.Word.{add64}
use sunshine_node.Storage.Map
use sunshine_node.Storage.Fresh.{next_free}
use sunshine_node.Dispatch.{DispatchError, VoteError}
use sunshine_node.Exec.{Exec, pure, gets, modify, ok_or, ◌>>=◌, ◌>>◌}
use sunshine_node.Util.Organization.{OrgRep}
use sunshine_node.Util.Vote.{Threshold, ThresholdInput, ThresholdConfig, VoteState, VoteOutcome}
use sunshine_node.Runtime.{VoteStore, Runtime, Config}

abbrev at_most : Option ℕ → ℕ → Bool
at_most none all_possible_turnout = true
at_most (some t) all_possible_turnout = leb t all_possible_turnout

unfoldable pub valid_signal_threshold : Threshold → ℕ → Bool
valid_signal_threshold threshold all_possible_turnout =
    leb threshold.in_favor all_possible_turnout && at_most threshold.against all_possible_turnout

module _ (T : Config) where
  open T use {mul_ceil}

  abbrev against_t : Option ℕ → ℕ → Option ℕ
  against_t none all_possible_turnout = none
  against_t (some t) all_possible_turnout = some (mul_ceil t all_possible_turnout)

  unfoldable pub from_permill_to_signal : Threshold → ℕ → Threshold
  from_permill_to_signal threshold all_possible_turnout = record {
    in_favor = mul_ceil threshold.in_favor all_possible_turnout;
    against = against_t threshold.against all_possible_turnout;
  }

abbrev ends_before : Option ℕ → ℕ → Bool
ends_before none now = false
ends_before (some n) now = ltb n now

unfoldable pub check_vote_expired : ℕ → VoteState → Bool
check_vote_expired now state = ends_before state.ends now

module _ {L : Type 0} where
  abbrev pub on_vote : (VoteStore → VoteStore) → Exec (Runtime L) (Unit {0})
  on_vote f = modify (λ s. record s { vote = f s.vote })

  abbrev pub put_vote_state : ℕ → VoteState → Exec (Runtime L) (Unit {0})
  put_vote_state id state =
      on_vote (λ s. record s { vote_states = Map.insert s.vote_states id state })

  -- The loops have one round more than there are entries.
  unfoldable pub generate_threshold_uid : Exec (Runtime L) ℕ
  generate_threshold_uid = do
    s ← gets (λ s. s.vote)
    let thresh_counter =
        next_free (length s.vote_thresholds + 1) s.vote_thresholds (add64 s.threshold_id_counter 1)
    on_vote (λ s. record s { threshold_id_counter = thresh_counter })
    pure thresh_counter

  unfoldable pub generate_unique_id : Exec (Runtime L) ℕ
  generate_unique_id = do
    s ← gets (λ s. s.vote)
    let id_counter = next_free (length s.vote_states + 1) s.vote_states (add64 s.vote_id_counter 1)
    on_vote (λ s. record s { vote_id_counter = id_counter })
    pure id_counter

  unfoldable pub get_vote_outcome : ℕ → Exec (Runtime L) VoteOutcome
  get_vote_outcome vote_id = do
    s ← gets (λ s. s.vote)
    vote_state ←
        ok_or (Map.get s.vote_states vote_id)
          (DispatchError.vote VoteError.no_vote_state_for_outcome_query)
    pure vote_state.outcome

  unfoldable pub register_threshold : ThresholdInput OrgRep → Exec (Runtime L) ℕ
  unfolding generate_threshold_uid
  register_threshold t = do
    id ← generate_threshold_uid
    let threshold : ThresholdConfig OrgRep = record {
      id = id;
      org = t.org;
      threshold = t.threshold;
    }
    on_vote (λ s. record s { vote_thresholds = Map.insert s.vote_thresholds id threshold })
    pure id
