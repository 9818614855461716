-- ===== src/Vote/Tally/Decision.antt =====
-- The outcome of a vote, from the votes that are logged for it.
use sunshine_node.Prelude.{
  ℕ, ◌-◌, ◌<◌, ◌≤◌, ◌≡◌, refl, true, false, Option, none, some, arith, leb, if◌then◌else◌,
}
use sunshine_node.Word.{u64_mod, sub64}
use sunshine_node.Storage.Map
use sunshine_node.Storage.DoubleMap
use sunshine_node.Dispatch.{ok}
use sunshine_node.Util.Vote.{
  Threshold, VoteOutcome, VoteState, VoterView, in_favor, against, abstain, same_view, set_outcome,
  apply, update_topic_and_clear_state, set_new_view, Vote,
}
use sunshine_node.Runtime.{Runtime}
use sunshine_node.Vote.Base.{check_vote_expired}
use sunshine_node.Vote.Ballot.{vote_on_proposal, update_vote_topic}
use sunshine_node.Vote.Tally.Sums.{tally}
use sunshine_node.Vote.Tally.Invariant.{IsCounted, vote_on_proposal-Ballot}
use sunshine_node.Vote.Tally.Preserve.{ballot_self, ballot_Counted}

-- The decision that a threshold makes on two sums; where neither is reached, the one before.
decide_against : Option ℕ → ℕ → VoteOutcome → VoteOutcome
decide_against none against_sum before = before
decide_against (some t) against_sum before =
    if leb t against_sum then VoteOutcome.rejected else before

pub decide : Threshold → ℕ → ℕ → VoteOutcome → VoteOutcome
unfolding decide_against
decide threshold favor_sum against_sum before =
    if leb threshold.in_favor favor_sum
    then VoteOutcome.approved
    else decide_against threshold.against against_sum before

-- Where the invariant holds, an accepted vote is stored with the outcome that the threshold decides
-- on the votes then logged; where neither limit is reached, with the outcome it had.
pub vote_on_proposal-decide :
    {L : Type 0} (id who : ℕ) (direction : VoterView) (justification : Option ℕ) (s : Runtime L)
    → IsCounted s.vote
    → (vote_on_proposal id who direction justification s).0 ≡ ok tt
    → let v = (vote_on_proposal id who direction justification s).1.vote in
      (st : VoteState) × (st' : VoteState) × (Map.get s.vote.vote_states id ≡ some st)
      × (Map.get v.vote_states id ≡ some st')
      × (st'.outcome
          ≡ decide st.threshold
              (tally (same_view in_favor) id v.vote_logger)
              (tally (same_view against) id v.vote_logger)
              st.outcome)
unfolding decide
vote_on_proposal-decide id who direction justification s c h =
    let b = vote_on_proposal-Ballot id who direction justification s h in
    let counted = ballot_Counted b c in
    let sums = ballot_self b c in
    (
      b.state,
      b.state',
      b.found,
      rw b.after (ground (arith, Map.get-insert s.vote.vote_states id id b.state')),
      rw b.after (
          ground
            (arith, counted.outcome, counted.terms.threshold, sums.favor_sum, sums.against_sum)),
    )

-- Without a threshold against, an approved vote stays approved when a supporter turns against it,
-- however few remain in favor.
pub approval_sticks :
    (s : VoteState) (m : ℕ) {s' : VoteState}
    → s.outcome ≡ VoteOutcome.approved
    → s.threshold.against ≡ none
    → apply s m in_favor against ≡ some s'
    → s'.outcome ≡ VoteOutcome.approved
unfolding apply set_outcome
approval_sticks s m was unset e = ground arith

-- Without the votes in the tally, taking one away wraps.
wraps :
    (s : VoteState) (topic m : ℕ)
    → 0 < m
    → m < u64_mod
    → s.threshold.in_favor ≤ u64_mod - m
    → (s' : VoteState) × (apply (update_topic_and_clear_state s topic) m in_favor abstain ≡ some s')
      × (s'.in_favor ≡ u64_mod - m)
      × (s'.outcome ≡ VoteOutcome.approved)
unfolding apply set_outcome sub64
wraps s topic m pos small below =
    let s' = record (update_topic_and_clear_state s topic) {
      in_favor = u64_mod - m;
      outcome = VoteOutcome.approved;
    } in
    (s', ground arith, refl, refl)

abbrev turned : Vote → Option ℕ → Vote
turned v justification = record v { direction = abstain; justification = justification }

set_new_view-turned :
    (v : Vote) (justification : Option ℕ)
    → v.direction ≡ in_favor
    → set_new_view v abstain justification ≡ some (turned v justification)
unfolding set_new_view
set_new_view-turned v justification supports = rw supports refl

still_runs :
    (now : ℕ) (st : VoteState) (topic : ℕ)
    → check_vote_expired now st ≡ false
    → check_vote_expired now (update_topic_and_clear_state st topic) ≡ false
unfolding check_vote_expired
still_runs now st topic runs = runs

get-insert_self :
    (m : Map.Map VoteState) (id : ℕ) (st : VoteState) → Map.get (Map.insert m id st) id ≡ some st
get-insert_self m id st = ground (arith, Map.get-insert m id id st)

-- What is asked for a vote to be accepted, and what is written then.
vote_accepted :
    {L : Type 0} (id who : ℕ) (direction : VoterView) (justification : Option ℕ) (s : Runtime L)
    (st : VoteState) (v u : Vote) (st' : VoteState)
    → Map.get s.vote.vote_states id ≡ some st
    → check_vote_expired s.block_number st ≡ false
    → DoubleMap.get s.vote.vote_logger id who ≡ some v
    → set_new_view v direction justification ≡ some u
    → apply st v.magnitude v.direction direction ≡ some st'
    → vote_on_proposal id who direction justification s ≡ (
      ok tt,
      record s {
        vote = record s.vote {
          vote_logger = DoubleMap.insert s.vote.vote_logger id who u;
          vote_states = Map.insert s.vote.vote_states id st';
        };
      },
    )
unfolding vote_on_proposal
vote_accepted id who direction justification s st v u st' found runs logged view applied =
    rw (found, runs, logged, view, applied) refl

-- A topic that clears the tallies of a vote leaves its logged votes. When a supporter then abstains
-- while the vote runs, the vote is accepted, and the tally in favor goes below zero, to 2^64 less the
-- magnitude, which meets any threshold up to that: the vote is approved.
pub cleared_tally_wraps :
    {L : Type 0} (id who topic : ℕ) (justification : Option ℕ) (s : Runtime L) (st : VoteState)
    (v : Vote)
    → Map.get s.vote.vote_states id ≡ some st
    → DoubleMap.get s.vote.vote_logger id who ≡ some v
    → v.direction ≡ in_favor
    → 0 < v.magnitude
    → v.magnitude < u64_mod
    → st.threshold.in_favor ≤ u64_mod - v.magnitude
    → check_vote_expired s.block_number st ≡ false
    → let cleared = update_vote_topic id topic true s in
      let after = vote_on_proposal id who abstain justification cleared.1 in
      (st' : VoteState) × (cleared.1.vote.vote_logger ≡ s.vote.vote_logger)
      × (after.0 ≡ ok tt)
      × (Map.get after.1.vote.vote_states id ≡ some st')
      × (st'.in_favor ≡ u64_mod - v.magnitude)
      × (st'.outcome ≡ VoteOutcome.approved)
unfolding update_vote_topic
cleared_tally_wraps id who topic justification s st v found logged supports pos small below runs =
    let cleared = update_topic_and_clear_state st topic in
    let (st', applied, low, approved) = wraps st topic v.magnitude pos small below in
    let states = Map.insert s.vote.vote_states id cleared in
    let accepted =
      vote_accepted id who abstain justification
        (record s { vote = record s.vote { vote_states = states } }) cleared v
        (turned v justification) st' (get-insert_self s.vote.vote_states id cleared)
        (still_runs s.block_number st topic runs) logged
        (set_new_view-turned v justification supports) (rw supports applied) in
    (
      st',
      rw found refl,
      rw (found, accepted) refl,
      rw (found, accepted) (get-insert_self states id st'),
      low,
      approved,
    )
