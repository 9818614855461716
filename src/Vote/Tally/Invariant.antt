-- ===== src/Vote/Tally/Invariant.antt =====
-- The invariant of the vote pallet under `vote_on_proposal`.
use sunshine_node.Prelude.{
  ℕ, ◌<◌, ◌≡◌, inl, inr, false, Option, some, none, arith, Bool-cases, Option-cases,
}
use sunshine_node.Word.{u64_mod}
use sunshine_node.Storage.Map
use sunshine_node.Storage.DoubleMap
use sunshine_node.Storage.DoubleMap.{DoubleMap}
use sunshine_node.Dispatch.{DispatchError, ok, err}
use sunshine_node.Util.Vote.{
  Vote, VoteState, VoterView, in_favor, against, same_view, set_new_view, apply,
}
use sunshine_node.Runtime.{Runtime, VoteStore}
use sunshine_node.Vote.Base.{check_vote_expired}
use sunshine_node.Vote.Ballot.{vote_on_proposal}
use sunshine_node.Vote.Tally.Sums.{cast, any, tally}

-- The state of a vote holds the sums over its logged votes.
pub record IsTallied (logger : DoubleMap Vote) (id : ℕ) (s : VoteState) : Type 0 where
  pub favor_sum : s.in_favor ≡ tally (same_view in_favor) id logger
  pub against_sum : s.against ≡ tally (same_view against) id logger
  pub turnout_sum : s.turnout ≡ tally cast id logger
  pub possible_sum : s.all_possible_turnout ≡ tally any id logger
  pub bounded : s.all_possible_turnout < u64_mod

-- Every stored state does, and above the counter nothing is stored or minted.
pub record IsCounted (v : VoteStore) : Type 0 where
  pub tallied :
      (id : ℕ) (s : VoteState) → Map.get v.vote_states id ≡ some s → IsTallied v.vote_logger id s
  pub unused : (id : ℕ) → v.vote_id_counter < id → Map.get v.vote_states id ≡ none
  pub unminted : (id who : ℕ) → v.vote_id_counter < id → DoubleMap.get v.vote_logger id who ≡ none

-- What an accepted vote does to the storage of the pallet.
pub record Ballot (now : ℕ) (v : VoteStore) (id who : ℕ) (direction : VoterView)
    (justification : Option ℕ) (v' : VoteStore) : Type 0 where
  pub state : VoteState
  pub state' : VoteState
  pub old : Vote
  pub new : Vote
  pub found : Map.get v.vote_states id ≡ some state
  pub running : check_vote_expired now state ≡ false
  pub logged : DoubleMap.get v.vote_logger id who ≡ some old
  pub changed : set_new_view old direction justification ≡ some new
  pub applied : apply state old.magnitude old.direction direction ≡ some state'
  pub after : v' ≡ record v {
    vote_logger = DoubleMap.insert v.vote_logger id who new;
    vote_states = Map.insert v.vote_states id state';
  }

module _ {L : Type 0} (id who : ℕ) (direction : VoterView) (justification : Option ℕ)
    (s : Runtime L) where
  -- A vote that is refused, with whichever error, leaves the whole state as it was.
  pub vote_on_proposal_refused :
      (e : DispatchError)
      → (vote_on_proposal id who direction justification s).0 ≡ err e
      → (vote_on_proposal id who direction justification s).1 ≡ s
  unfolding vote_on_proposal
  vote_on_proposal_refused e h = ground arith

  -- A vote that is accepted found a state that has not expired and the voter's signal; it has
  -- written the new vote and the state that `apply` computed, and nothing else in the pallet.
  pub vote_on_proposal-Ballot :
      (vote_on_proposal id who direction justification s).0 ≡ ok tt
      → Ballot s.block_number s.vote id who direction justification
          (vote_on_proposal id who direction justification s).1.vote
  unfolding vote_on_proposal
  vote_on_proposal-Ballot h = elim (Option-cases (Map.get s.vote.vote_states id)) [
    | inl e ↦ absurd (ground arith)
    | inr (st, found) ↦ elim (Bool-cases (check_vote_expired s.block_number st)) [
      | inl e ↦ absurd (ground arith)
      | inr running ↦ elim (Option-cases (DoubleMap.get s.vote.vote_logger id who)) [
        | inl e ↦ absurd (ground arith)
        | inr (old, logged) ↦ elim (Option-cases (set_new_view old direction justification)) [
          | inl e ↦ absurd (ground arith)
          | inr (new, changed) ↦
              elim (Option-cases (apply st old.magnitude old.direction direction)) [
                | inl e ↦ absurd (ground arith)
                | inr (st', applied) ↦ record {
                  state = st;
                  state' = st';
                  old = old;
                  new = new;
                  found = found;
                  running = running;
                  logged = logged;
                  changed = changed;
                  applied = applied;
                  after = ground arith;
                }
              ]
        ]
      ]
    ]
  ]
