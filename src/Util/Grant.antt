-- ===== src/Util/Grant.antt =====
-- utils/src/grant.rs: foundations, the applications to them and the milestones of a grant.
use sunshine_node.Prelude.{ℕ, Bool, true, false, Option, none, some}
use sunshine_node.Word.{add128, sub128}
use sunshine_node.Util.Organization.{OrgRep}
use sunshine_node.Util.Meta.{VoteMetadata, ResolutionMetadata}

pub record Foundation : Type 0 where
  pub info : ℕ
  pub funds : ℕ
  pub gov : ResolutionMetadata (VoteMetadata OrgRep)

abbrev pub add_funds : Foundation → ℕ → Foundation
add_funds f a = record f { funds = add128 f.funds a }

-- Nothing calls it.
abbrev pub subtract_funds : Foundation → ℕ → Foundation
subtract_funds f a = record f { funds = sub128 f.funds a }

pub data ApplicationState : Type 0 where
  submitted_awaiting_response : ApplicationState
  under_review_by_acceptance_committee : ℕ → ApplicationState
  approved_and_live : ApplicationState
  closed : ApplicationState

abbrev pub awaiting_review : ApplicationState → Bool
awaiting_review ApplicationState.submitted_awaiting_response = true
awaiting_review _ = false

abbrev pub reviewed_by : ApplicationState → Option ℕ
reviewed_by (ApplicationState.under_review_by_acceptance_committee vote_id) = some vote_id
reviewed_by _ = none

abbrev pub is_live : ApplicationState → Bool
is_live ApplicationState.approved_and_live = true
is_live _ = false

pub record Recipient : Type 0 where
  pub account : ℕ
  pub org : Option OrgRep

pub record GrantApplication : Type 0 where
  pub foundation_id : ℕ
  pub submission_ref : ℕ
  pub recipient : Recipient
  pub payment : ℕ
  pub state : ApplicationState

abbrev pub new_application : ℕ → ℕ → Recipient → ℕ → GrantApplication
new_application foundation_id submission_ref recipient payment = record {
  foundation_id = foundation_id;
  submission_ref = submission_ref;
  recipient = recipient;
  payment = payment;
  state = ApplicationState.submitted_awaiting_response;
}

abbrev pub set_application : GrantApplication → ApplicationState → GrantApplication
set_application a s = record a { state = s }

pub data MilestoneStatus : Type 0 where
  submitted_awaiting_response : MilestoneStatus
  submitted_review_started : ℕ → MilestoneStatus
  approved_but_not_transferred : MilestoneStatus
  approved_and_transfer_executed : MilestoneStatus

pub record MilestoneSubmission : Type 0 where
  pub base : ℕ × ℕ
  pub submission : ℕ
  pub recipient : Recipient
  pub payment : ℕ
  pub state : MilestoneStatus

abbrev pub new_milestone : ℕ × ℕ → ℕ → Recipient → ℕ → MilestoneSubmission
new_milestone base submission recipient payment = record {
  base = base;
  submission = submission;
  recipient = recipient;
  payment = payment;
  state = MilestoneStatus.submitted_awaiting_response;
}

abbrev pub milestone_awaits : MilestoneStatus → Bool
milestone_awaits MilestoneStatus.submitted_awaiting_response = true
milestone_awaits _ = false

abbrev pub milestone_reviewed_by : MilestoneStatus → Option ℕ
milestone_reviewed_by (MilestoneStatus.submitted_review_started n) = some n
milestone_reviewed_by _ = none

abbrev pub set_milestone : MilestoneSubmission → MilestoneStatus → MilestoneSubmission
set_milestone m s = record m { state = s }
