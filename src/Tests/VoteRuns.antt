-- ===== src/Tests/VoteRuns.antt =====
-- The vote pallet on concrete inputs.
use sunshine_node.Prelude.{
  ℕ, ◌-◌, ◌<◌, ◌≡◌, refl, subst, none, some, [], ◌∷◌, true, false, is_some, arith, length, dedup,
  dedup_from,
}
use sunshine_node.Word.{u64_mod, u32_mod, add64, sub64, add32}
use sunshine_node.Storage.Map
use sunshine_node.Storage.DoubleMap
use sunshine_node.Storage.Fresh.{next_free}
use sunshine_node.Dispatch.{ok, err, DispatchError, VoteError}
use sunshine_node.Util.Organization.{OrgRep}
use sunshine_node.Util.Share.{from_vec, sum_from}
use sunshine_node.Util.Vote.{
  Threshold, ThresholdInput, XorThreshold, VoteState, VoteOutcome, in_favor, against, abstain,
  apply, set_outcome, set_new_view, same_view, new, update_topic_and_clear_state,
}
use sunshine_node.Util.Vote as Ballots
use sunshine_node.Util.Vote.Outcome.{Counted, apply-Counted}
use sunshine_node.Runtime.{Runtime, VoteStore}
use sunshine_node.Org
use sunshine_node.Vote
use sunshine_node.Vote.Tally.Sums.{tally, any}
use sunshine_node.Vote.Tally.Invariant.{
  IsCounted, Ballot, vote_on_proposal_refused, vote_on_proposal-Ballot,
}
use sunshine_node.Vote.Tally.Electorate.{Electorate, IsElectorate, electorate}
use sunshine_node.Vote.Tally.Voters.{weighted-IsElectorate, equal-IsElectorate, one_if}
use sunshine_node.Vote.Thresholds.{invoke-register, signal_of}
use sunshine_node.Vote.Tally.Opening.{open_vote-IsCounted, open_vote_exceeds}
use sunshine_node.Vote.Tally.Decision.{
  decide, vote_on_proposal-decide, approval_sticks, cleared_tally_wraps,
}
use sunshine_node.Vote.Tally.Reach.{Reachable-IsCounted, begin, next, open_signal, vote, extend}
use sunshine_node.Tests.Host.{host, start, empty_vote, ordered, ordered-laws}
use sunshine_node.Tests.OrgRuns.{two_members, two_members-IsOwned}

empty-IsCounted : IsCounted empty_vote
unfolding Map.get DoubleMap.get
empty-IsCounted = record {
  tallied = λ id s h. ground arith;
  unused = λ id h. refl;
  unminted = λ id who h. refl;
}

-- Five shares in favor are enough, and nothing counts as a rejection.
abbrev pub five : Threshold
five = record { in_favor = 5; against = none }

abbrev eleven : Threshold
eleven = record { in_favor = 11; against = none }

abbrev half : Threshold
half = record { in_favor = 500000; against = some 500000 }

abbrev group : Electorate
group = record { group = (10, 6) ∷ (11, 4) ∷ []; total = 10 }

abbrev heads : Electorate
heads = record { group = (10, 1) ∷ (11, 1) ∷ []; total = 2 }

-- The organization of the two members, at the first block.
abbrev pub members : Runtime (Map.Map ℕ)
members = record start { org = two_members }

by_weight : electorate host two_members (OrgRep.weighted 1) ≡ some group
unfolding Org.get_membership_with_shape Org.id_is_available Map.get DoubleMap.iter_prefix from_vec
    dedup dedup_from sum_from add64
by_weight = refl

by_head : electorate host two_members (OrgRep.equal 1) ≡ some heads
unfolding Org.get_group Org.id_is_available Map.get DoubleMap.iter_prefix ordered
by_head = refl

weighted-IsElectorate_example : IsElectorate group
weighted-IsElectorate_example =
    weighted-IsElectorate two_members two_members-IsOwned 1 host group by_weight

two_heads : length (ordered (Org.keys (DoubleMap.iter_prefix two_members.members 1))) < u32_mod
unfolding DoubleMap.iter_prefix ordered Map.get
two_heads = omega arith

equal-IsElectorate_example :
    IsElectorate heads
    × ((who : ℕ)
        → Map.get heads.group who ≡ one_if (is_some (DoubleMap.get two_members.members 1 who)))
equal-IsElectorate_example =
    equal-IsElectorate host two_members 1 heads ordered-laws two_heads by_head

voters :
    (e : Electorate) → electorate host two_members (OrgRep.weighted 1) ≡ some e → IsElectorate e
voters e is = weighted-IsElectorate two_members two_members-IsOwned 1 host e is

too_many : Vote.valid_signal_threshold eleven 10 ≡ false
unfolding Vote.valid_signal_threshold
too_many = refl

open_vote_exceeds_example :
    let r = Vote.open_vote host none (OrgRep.weighted 1) eleven none members in
    let id = r.1.vote.vote_id_counter in
    (r.0 ≡ err (DispatchError.vote VoteError.input_threshold_exceeds_bounds))
    × (0 < id)
    × (tally any id [] ≡ 0)
    × (tally any id r.1.vote.vote_logger ≡ 10)
    × (Map.get r.1.vote.vote_states id ≡ none)
open_vote_exceeds_example =
    open_vote_exceeds host none (OrgRep.weighted 1) eleven none members group by_weight
      empty-IsCounted (omega arith) (voters group by_weight) too_many

-- Half of the signal of the two members, by shares, is registered and invoked.
half_of_ten : Vote.valid_signal_threshold (signal_of host (XorThreshold.percent half) 10) 10 ≡ true
unfolding Vote.valid_signal_threshold Vote.from_permill_to_signal
half_of_ten = refl

invoke-register_example :
    let t : ThresholdInput OrgRep = record {
      org = OrgRep.weighted 1;
      threshold = XorThreshold.percent half;
    } in
    let r = Vote.register_threshold t members in
    (id : ℕ) × (vote_id : ℕ) × (r.0 ≡ ok id)
    × ((Vote.invoke_threshold host id (some 8) none r.1).0 ≡ ok vote_id)
    × (Map.get (Vote.invoke_threshold host id (some 8) none r.1).1.vote.vote_states vote_id
        ≡ some (new (some 8) 10 (record { in_favor = 5; against = some 5 }) 1 none))
unfolding Vote.from_permill_to_signal
invoke-register_example =
    invoke-register host (record { org = OrgRep.weighted 1; threshold = XorThreshold.percent half })
      (some 8) none members group by_weight half_of_ten

-- The storage with that vote open.
abbrev pub opened_store : VoteStore
opened_store = record {
  vote_id_counter = 1;
  threshold_id_counter = 0;
  open_vote_counter = 1;
  vote_states = (1, new none 10 five 1 none) ∷ [];
  vote_thresholds = [];
  total_signal_issuance = (1, 10) ∷ [];
  vote_logger = (1, 10, Vote.new_vote 6) ∷ (1, 11, Vote.new_vote 4) ∷ [];
}

opened_vote : (Vote.open_vote host none (OrgRep.weighted 1) five none members).1.vote ≡ opened_store
unfolding Vote.open_vote Vote.generate_unique_id Vote.mint_for Vote.batch_mint_signal Vote.mint
    Vote.mint_each Vote.start_vote Vote.valid_signal_threshold Org.get_membership_with_shape
    Org.id_is_available Map.get Map.insert DoubleMap.insert DoubleMap.iter_prefix from_vec dedup
    dedup_from sum_from add64 add32 next_free
opened_vote = refl

opened-IsCounted : IsCounted opened_store
opened-IsCounted = subst IsCounted opened_vote (
    open_vote-IsCounted host none (OrgRep.weighted 1) none members empty-IsCounted (omega arith)
      voters five)

abbrev pub opened : Runtime (Map.Map ℕ)
opened = record members { vote = opened_store }

in_favor_ok : (Vote.vote_on_proposal 1 10 in_favor none opened).0 ≡ ok tt
unfolding Vote.vote_on_proposal Vote.check_vote_expired Map.get DoubleMap.get set_new_view apply
    set_outcome add64
in_favor_ok = refl

vote_on_proposal-Ballot_example :
    Ballot 1 opened_store 1 10 in_favor none
      (Vote.vote_on_proposal 1 10 in_favor none opened).1.vote
vote_on_proposal-Ballot_example = vote_on_proposal-Ballot 1 10 in_favor none opened in_favor_ok

vote_on_proposal-decide_example :
    let v = (Vote.vote_on_proposal 1 10 in_favor none opened).1.vote in
    (st : VoteState) × (st' : VoteState) × (Map.get opened_store.vote_states 1 ≡ some st)
    × (Map.get v.vote_states 1 ≡ some st')
    × (st'.outcome
        ≡ decide st.threshold
            (tally (same_view in_favor) 1 v.vote_logger)
            (tally (same_view against) 1 v.vote_logger)
            st.outcome)
vote_on_proposal-decide_example =
    vote_on_proposal-decide 1 10 in_favor none opened opened-IsCounted in_favor_ok

-- Account 12 has no signal.
stranger_refused :
    (Vote.vote_on_proposal 1 12 in_favor none opened).0
    ≡ err (DispatchError.vote VoteError.signal_not_minted_for_voter)
unfolding Vote.vote_on_proposal Vote.check_vote_expired Map.get DoubleMap.get
stranger_refused = refl

vote_on_proposal_refused_example : (Vote.vote_on_proposal 1 12 in_favor none opened).1 ≡ opened
vote_on_proposal_refused_example =
    vote_on_proposal_refused 1 12 in_favor none opened
      (DispatchError.vote VoteError.signal_not_minted_for_voter) stranger_refused

-- The state once the six shares are in favor, and once they have turned.
abbrev approved : VoteState
approved = record (new none 10 five 1 none) {
  in_favor = 6;
  turnout = 6;
  outcome = VoteOutcome.approved;
}

abbrev turned : VoteState
turned = record approved { in_favor = 0; against = 6 }

turns : apply approved 6 in_favor against ≡ some turned
unfolding apply set_outcome add64 sub64
turns = refl

apply-Counted_example : Counted approved turned 6 in_favor against
apply-Counted_example =
    apply-Counted approved 6 in_favor against
      (record {
        has_in_favor = omega arith;
        has_against = omega arith;
        room_in_favor = omega arith;
        room_against = omega arith;
        room_turnout = omega arith;
      })
      (omega arith) (omega arith) turns

approval_sticks_example : turned.outcome ≡ VoteOutcome.approved
approval_sticks_example = approval_sticks approved 6 refl refl turns

-- The six shares in favor are logged, in a vote that they have approved.
abbrev six : Ballots.Vote
six = record { magnitude = 6; direction = in_favor; justification = none }

abbrev decided : Runtime (Map.Map ℕ)
decided = record opened {
  vote = record opened_store {
    vote_states = (1, approved) ∷ [];
    vote_logger = (1, 10, six) ∷ (1, 11, Vote.new_vote 4) ∷ [];
  };
}

approved-stored : Map.get decided.vote.vote_states 1 ≡ some approved
unfolding Map.get
approved-stored = refl

six-logged : DoubleMap.get decided.vote.vote_logger 1 10 ≡ some six
unfolding DoubleMap.get
six-logged = refl

still_open : Vote.check_vote_expired 1 approved ≡ false
unfolding Vote.check_vote_expired
still_open = refl

cleared_tally_wraps_example :
    let cleared = Vote.update_vote_topic 1 3 true decided in
    let after = Vote.vote_on_proposal 1 10 abstain none cleared.1 in
    (st' : VoteState) × (cleared.1.vote.vote_logger ≡ decided.vote.vote_logger)
    × (after.0 ≡ ok tt)
    × (Map.get after.1.vote.vote_states 1 ≡ some st')
    × (st'.in_favor ≡ u64_mod - 6)
    × (st'.outcome ≡ VoteOutcome.approved)
cleared_tally_wraps_example =
    cleared_tally_wraps 1 10 3 none decided approved six approved-stored six-logged refl
      (omega arith) (omega arith) (omega arith) still_open

-- A vote is opened, account 10 votes, and the vote gets more time.
abbrev voted : Runtime (Map.Map ℕ)
voted =
    (Vote.vote_on_proposal 1 10 in_favor none
      (Vote.open_vote host none (OrgRep.weighted 1) five none members).1).1

Reachable-IsCounted_example : IsCounted (Vote.extend_vote_length 1 20 voted).1.vote
Reachable-IsCounted_example = Reachable-IsCounted host (
    next
      (next
        (next (begin members refl refl)
          (open_signal none (OrgRep.weighted 1) five none (omega arith) voters))
        (vote 1 10 in_favor none))
      (extend 1 20))
