-- ===== src/Util/Vote.antt =====
-- utils/src/vote.rs: votes, thresholds and the state of a vote.
pub mod Outcome
use sunshine_node.Prelude.{ℕ, Bool, true, false, Option, none, some, ◌==◌, leb, if◌then◌else◌}
use sunshine_node.Word.{add64, sub64}

pub data VoterView : Type 0 where
  uninitialized in_favor against abstain : VoterView

abbrev pub same_view : VoterView → VoterView → Bool
same_view VoterView.uninitialized VoterView.uninitialized = true
same_view VoterView.in_favor VoterView.in_favor = true
same_view VoterView.against VoterView.against = true
same_view VoterView.abstain VoterView.abstain = true
same_view _ _ = false

pub record Vote : Type 0 where
  pub magnitude : ℕ
  pub direction : VoterView
  pub justification : Option ℕ

unfoldable pub set_new_view : Vote → VoterView → Option ℕ → Option Vote
set_new_view v new_direction new_justification =
    if same_view v.direction new_direction
    then none
    else some (record v { direction = new_direction; justification = new_justification })

pub record Threshold : Type 0 where
  pub in_favor : ℕ
  pub against : Option ℕ

-- `Signal` counts signal, `Percent` parts per million.
pub data XorThreshold : Type 0 where
  signal percent : Threshold → XorThreshold

pub record ThresholdInput (OrgId : Type 0) : Type 0 where
  pub org : OrgId
  pub threshold : XorThreshold

pub record ThresholdConfig (OrgId : Type 0) : Type 0 where
  pub id : ℕ
  pub org : OrgId
  pub threshold : XorThreshold

pub data VoteOutcome : Type 0 where
  not_started voting approved rejected : VoteOutcome

pub record VoteState : Type 0 where
  pub topic : Option ℕ
  pub in_favor : ℕ
  pub against : ℕ
  pub turnout : ℕ
  pub all_possible_turnout : ℕ
  pub threshold : Threshold
  pub initialized : ℕ
  pub ends : Option ℕ
  pub outcome : VoteOutcome

abbrev pub new : Option ℕ → ℕ → Threshold → ℕ → Option ℕ → VoteState
new topic all_possible_turnout threshold initialized ends = record {
  topic = topic;
  in_favor = 0;
  against = 0;
  turnout = 0;
  all_possible_turnout = all_possible_turnout;
  threshold = threshold;
  initialized = initialized;
  ends = ends;
  outcome = VoteOutcome.voting;
}

abbrev pub new_unanimous_consent : Option ℕ → ℕ → ℕ → Option ℕ → VoteState
new_unanimous_consent topic all_possible_turnout initialized ends =
    new topic all_possible_turnout (record { in_favor = all_possible_turnout; against = none })
      initialized ends

abbrev pub set_ends : VoteState → ℕ → VoteState
set_ends s e = record s { ends = some e }

abbrev pub update_topic_and_clear_state : VoteState → ℕ → VoteState
update_topic_and_clear_state s new_topic = record s {
  in_favor = 0;
  against = 0;
  turnout = 0;
  topic = some new_topic;
}

abbrev pub update_topic_without_clearing_state : VoteState → ℕ → VoteState
update_topic_without_clearing_state s new_topic = record s { topic = some new_topic }

abbrev pub is_approved : VoteState → Bool
is_approved s = leb s.threshold.in_favor s.in_favor

abbrev rejected_at : Option ℕ → ℕ → Option Bool
rejected_at none votes = none
rejected_at (some rejection_threshold_set) votes = some (leb rejection_threshold_set votes)

abbrev pub is_rejected : VoteState → Option Bool
is_rejected s = rejected_at s.threshold.against s.against

abbrev unwrap_or_false : Option Bool → Bool
unwrap_or_false none = false
unwrap_or_false (some rejection_outcome) = rejection_outcome

unfoldable pub set_outcome : VoteState → VoteState
set_outcome s =
    if is_approved s
    then record s { outcome = VoteOutcome.approved }
    else if unwrap_or_false (is_rejected s)
    then record s { outcome = VoteOutcome.rejected }
    else s

unfoldable pub apply : VoteState → ℕ → VoterView → VoterView → Option VoteState
apply s magnitude VoterView.uninitialized VoterView.in_favor = some (
    set_outcome
      (record s { in_favor = add64 s.in_favor magnitude; turnout = add64 s.turnout magnitude }))
apply s magnitude VoterView.uninitialized VoterView.against = some (
    set_outcome
      (record s { against = add64 s.against magnitude; turnout = add64 s.turnout magnitude }))
apply s magnitude VoterView.uninitialized VoterView.abstain =
    some (set_outcome (record s { turnout = add64 s.turnout magnitude }))
apply s magnitude VoterView.in_favor VoterView.against = some (
    set_outcome
      (record s { in_favor = sub64 s.in_favor magnitude; against = add64 s.against magnitude }))
apply s magnitude VoterView.in_favor VoterView.abstain =
    some (set_outcome (record s { in_favor = sub64 s.in_favor magnitude }))
apply s magnitude VoterView.against VoterView.in_favor = some (
    set_outcome
      (record s { in_favor = add64 s.in_favor magnitude; against = sub64 s.against magnitude }))
apply s magnitude VoterView.against VoterView.abstain =
    some (set_outcome (record s { against = sub64 s.against magnitude }))
apply s magnitude VoterView.abstain VoterView.in_favor =
    some (set_outcome (record s { in_favor = add64 s.in_favor magnitude }))
apply s magnitude VoterView.abstain VoterView.against =
    some (set_outcome (record s { against = add64 s.against magnitude }))
apply s magnitude _ _ = none
