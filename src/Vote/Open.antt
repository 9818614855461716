-- ===== src/Vote/Open.antt =====
-- `impl MintableSignal`, `impl OpenVote` and `invoke_threshold` of the vote pallet.
use sunshine_node.Prelude.{ℕ, ◌%◌, Option, none, some, List, [], ◌∷◌, map, length}
use sunshine_node.Word.{u32_mod, add32}
use sunshine_node.Storage.Map
use sunshine_node.Storage.DoubleMap
use sunshine_node.Storage.DoubleMap.{DoubleMap}
use sunshine_node.Dispatch.{DispatchError, VoteError}
use sunshine_node.Exec.{Exec, pure, gets, ok_or, ensure, ◌>>=◌, ◌>>◌}
use sunshine_node.Util.Organization.{OrgRep}
use sunshine_node.Util.Vote
use sunshine_node.Util.Vote.{Threshold, XorThreshold, VoterView}
use sunshine_node.Runtime.{Runtime, Config, Call}
use sunshine_node.Org
use sunshine_node.Vote.Base.{
  on_vote, put_vote_state, generate_unique_id, valid_signal_threshold, from_permill_to_signal,
}

abbrev pub new_vote : ℕ → Vote.Vote
new_vote minted_signal = record {
  magnitude = minted_signal;
  direction = VoterView.uninitialized;
  justification = none;
}

-- The loop over the members, each with the signal that it is given.
unfoldable pub mint_each : ℕ → List (ℕ × ℕ) → DoubleMap Vote.Vote → DoubleMap Vote.Vote
mint_each vote_id [] logger = logger
mint_each vote_id ((who, minted_signal) ∷ rest) logger =
    mint_each vote_id rest (DoubleMap.insert logger vote_id who (new_vote minted_signal))

module _ {L : Type 0} where
  unfoldable pub mint : ℕ → List (ℕ × ℕ) → ℕ → Exec (Runtime L) ℕ
  mint vote_id group total_minted = do
    on_vote (λ s. record s {
      vote_logger = mint_each vote_id group s.vote_logger;
      total_signal_issuance = Map.insert s.total_signal_issuance vote_id total_minted;
    })
    pure total_minted

  unfoldable pub batch_mint_signal : ℕ → ℕ → Exec (Runtime L) ℕ
  unfolding mint
  batch_mint_signal vote_id organization = do
    s ← gets (λ s. s.org)
    new_vote_group ←
        ok_or (Org.get_membership_with_shape s organization)
          (DispatchError.vote VoteError.cannot_mint_signal_because_membership_shape_dne)
    mint vote_id new_vote_group.vec new_vote_group.total

abbrev pub ends_at : ℕ → Option ℕ → Option ℕ
ends_at now none = none
ends_at now (some time_to_add) = some (add32 now time_to_add)

module _ (T : Config) where
  open T use {ordered_set}

  -- `len() as u32`, as a Signal.
  unfoldable pub batch_mint_equal_signal : ℕ → ℕ → Call T ℕ
  unfolding mint
  batch_mint_equal_signal vote_id organization = do
    s ← gets (λ s. s.org)
    new_vote_group ←
        ok_or (Org.get_group ordered_set s organization)
          (DispatchError.vote VoteError.cannot_mint_signal_because_group_membership_dne)
    mint vote_id (map (λ who. (who, 1)) new_vote_group) (length new_vote_group % u32_mod)

  unfoldable pub mint_for : ℕ → OrgRep → Call T ℕ
  unfolding batch_mint_signal batch_mint_equal_signal
  mint_for new_vote_id (OrgRep.weighted org_id) = batch_mint_signal new_vote_id org_id
  mint_for new_vote_id (OrgRep.equal org_id) = batch_mint_equal_signal new_vote_id org_id

  -- From the check of the threshold to the end of `open_vote`.
  unfoldable pub start_vote : ℕ → Option ℕ → ℕ → Threshold → ℕ → Option ℕ → Call T ℕ
  unfolding valid_signal_threshold
  start_vote new_vote_id topic total_possible_turnout threshold now ends = do
    ensure (valid_signal_threshold threshold total_possible_turnout)
        (DispatchError.vote VoteError.input_threshold_exceeds_bounds)
    put_vote_state new_vote_id (Vote.new topic total_possible_turnout threshold now ends)
    on_vote (λ s. record s { open_vote_counter = add32 s.open_vote_counter 1 })
    pure new_vote_id

  unfoldable pub open_vote : Option ℕ → OrgRep → Threshold → Option ℕ → Call T ℕ
  unfolding generate_unique_id mint_for start_vote
  open_vote topic organization threshold duration = do
    now ← gets (λ s. s.block_number)
    let ends = ends_at now duration
    new_vote_id ← generate_unique_id
    total_possible_turnout ← mint_for new_vote_id organization
    start_vote new_vote_id topic total_possible_turnout threshold now ends

  unfoldable pub open_percent_vote : Option ℕ → OrgRep → Threshold → Option ℕ → Call T ℕ
  unfolding generate_unique_id mint_for start_vote
  open_percent_vote topic organization threshold duration = do
    now ← gets (λ s. s.block_number)
    let ends = ends_at now duration
    new_vote_id ← generate_unique_id
    total_possible_turnout ← mint_for new_vote_id organization
    let signal_threshold = from_permill_to_signal T threshold total_possible_turnout
    start_vote new_vote_id topic total_possible_turnout signal_threshold now ends

  abbrev pub open_by : XorThreshold → Option ℕ → OrgRep → Option ℕ → Call T ℕ
  open_by (XorThreshold.signal t) topic org duration = open_vote topic org t duration
  open_by (XorThreshold.percent t) topic org duration = open_percent_vote topic org t duration

  unfoldable pub invoke_threshold : ℕ → Option ℕ → Option ℕ → Call T ℕ
  invoke_threshold id topic duration = do
    s ← gets (λ s. s.vote)
    config ←
        ok_or (Map.get s.vote_thresholds id)
          (DispatchError.vote VoteError.cannot_invoke_threshold_that_dne)
    open_by config.threshold topic config.org duration
