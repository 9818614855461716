-- ===== src/Util/Bounty.antt =====
-- utils/src/bounty.rs: bounties, contributions and submissions.
use sunshine_node.Prelude.{ℕ, Bool, true, false, ◌==◌}
use sunshine_node.Word.{add128, sub128}

pub record BountyInformation : Type 0 where
  pub id : ℕ
  pub info : ℕ
  pub depositer : ℕ
  pub total : ℕ

abbrev pub add_total : BountyInformation → ℕ → BountyInformation
add_total b c = record b { total = add128 b.total c }

abbrev pub subtract_total : BountyInformation → ℕ → BountyInformation
subtract_total b c = record b { total = sub128 b.total c }

pub record Contribution : Type 0 where
  pub id : ℕ
  pub account : ℕ
  pub total : ℕ

-- `add_total` of a contribution.
abbrev pub add_contribution : Contribution → ℕ → Contribution
add_contribution b c = record b { total = add128 b.total c }

pub data SubmissionState : Type 0 where
  submitted_awaiting_response approved_and_executed : SubmissionState

abbrev pub awaiting_review : SubmissionState → Bool
awaiting_review SubmissionState.submitted_awaiting_response = true
awaiting_review SubmissionState.approved_and_executed = false

abbrev pub approved : SubmissionState → Bool
approved SubmissionState.submitted_awaiting_response = false
approved SubmissionState.approved_and_executed = true

pub record BountySubmission (State : Type 0) : Type 0 where
  pub id : ℕ × ℕ
  pub submission_ref : ℕ
  pub submitter : ℕ
  pub amount : ℕ
  pub state : State

-- With the default of the state.
abbrev pub new_submission : {State : Type 0} → State → ℕ → ℕ → ℕ → ℕ → ℕ → BountySubmission State
new_submission default bounty submission submission_ref submitter amount = record {
  id = (bounty, submission);
  submission_ref = submission_ref;
  submitter = submitter;
  amount = amount;
  state = default;
}

abbrev pub is_submitter : {State : Type 0} → BountySubmission State → ℕ → Bool
is_submitter s who = s.submitter == who
