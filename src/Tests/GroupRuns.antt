-- ===== src/Tests/GroupRuns.antt =====
-- The grant and insurance pallets on concrete inputs.
use sunshine_node.Prelude.{ℕ, ◌+◌, ◌<◌, ◌≡◌, refl, inl, none, some, [], ◌∷◌, arith}
use sunshine_node.Word.{u64_mod, add64}
use sunshine_node.Storage.Map
use sunshine_node.Storage.DoubleMap
use sunshine_node.Storage.Fresh.{next_free}
use sunshine_node.Util.Organization.{OrgRep}
use sunshine_node.Util.Vote.{VoteOutcome, new}
use sunshine_node.Util.Meta.{VoteMetadata, ResolutionMetadata}
use sunshine_node.Util.Grant.{
  GrantApplication, ApplicationState, MilestoneSubmission, MilestoneStatus, Recipient,
}
use sunshine_node.Util.Insurance.{Dispute, DisputeState}
use sunshine_node.Runtime.{Runtime}
use sunshine_node.Grant
use sunshine_node.Grant.{GrantTrait}
use sunshine_node.Grant.Applied.{HasRoom}
use sunshine_node.Grant.Reach as GrantReach
use sunshine_node.Grant.Polling.{late_finalize_idle}
use sunshine_node.Grant.Paid.{approved_milestone_rests}
use sunshine_node.Insurance
use sunshine_node.Insurance.{InsuranceTrait}
use sunshine_node.Insurance.Reserved.{settled_dispute_rests}
use sunshine_node.Tests.Host.{host, start}
use sunshine_node.Tests.VoteRuns.{opened, opened_store, five}

abbrev funds : GrantTrait
funds = record { foundation_account_id = λ id. 4000 + id; min_deposit = 5; min_contribution = 1 }

abbrev by_ten : ResolutionMetadata (VoteMetadata OrgRep)
by_ten = record { sudo = some 10; vote = none }

abbrev eleven : Recipient
eleven = record { account = 11; org = none }

-- Account 10 creates a foundation and approves the application of account 11, which submits a
-- milestone.
abbrev no_grant : Grant.State (Map.Map ℕ)
no_grant = record {
  base = start;
  store = record {
    foundation_nonce = 0;
    application_nonce = 0;
    milestone_nonce = [];
    foundations = [];
    foundation_donations = [];
    applications = [];
    milestones = [];
    application_poll_frequency = 5;
    milestone_poll_frequency = 5;
  };
  posted = [];
}

abbrev founded : Grant.State (Map.Map ℕ)
founded = (Grant.create_foundation host funds 10 7 50 by_ten no_grant).1

abbrev applied : Grant.State (Map.Map ℕ)
applied = (Grant.submit_application host funds 11 1 8 eleven 20 founded).1

abbrev awarded : Grant.State (Map.Map ℕ)
awarded = (Grant.approve_application host funds 10 1 applied).1

abbrev delivered : Grant.State (Map.Map ℕ)
delivered = (Grant.submit_milestone host funds 11 1 1 9 eleven 20 awarded).1

abbrev milestone : MilestoneSubmission
milestone = record {
  base = (1, 1);
  submission = 9;
  recipient = eleven;
  payment = 20;
  state = MilestoneStatus.submitted_awaiting_response;
}

milestone-stored : DoubleMap.get delivered.store.milestones 1 1 ≡ some milestone
unfolding Grant.submit_milestone Grant.approve_application Grant.submit_application
    Grant.create_foundation Grant.foundation_generate_uid Grant.application_generate_uid
    Grant.milestone_generate_uid Grant.foundation_id_is_available Map.get Map.insert DoubleMap.get
    DoubleMap.insert DoubleMap.iter_prefix next_free add64
milestone-stored = refl

one_left : founded.store.application_nonce + 1 + 0 < u64_mod
unfolding Grant.create_foundation Grant.foundation_generate_uid Map.get Map.insert next_free add64
one_left = omega arith

no_application : founded.store.applications ≡ []
unfolding Grant.create_foundation Grant.foundation_generate_uid Map.get Map.insert next_free add64
no_application = refl

room : HasRoom founded.store
room = rw no_application one_left

Reachable-awarded_example :
    (app : GrantApplication) × (Map.get delivered.store.applications 1 ≡ some app)
    × (app.state ≡ ApplicationState.approved_and_live)
Reachable-awarded_example =
    GrantReach.Reachable-awarded host funds
      (GrantReach.next
        (GrantReach.next
          (GrantReach.next
            (GrantReach.next (GrantReach.begin no_grant refl refl)
              (GrantReach.create 10 7 50 by_ten))
            (GrantReach.submit 11 1 8 eleven 20 room))
          (GrantReach.approve 10 1))
        (GrantReach.deliver 11 1 1 9 eleven 20))
      1 1 milestone milestone-stored

abbrev paid_milestone : MilestoneSubmission
paid_milestone = record milestone { state = MilestoneStatus.approved_and_transfer_executed }

abbrev paid : Grant.State (Map.Map ℕ)
paid = record founded { store = record founded.store { milestones = (1, 1, paid_milestone) ∷ [] } }

paid-stored : DoubleMap.get paid.store.milestones 1 1 ≡ some paid_milestone
unfolding DoubleMap.get
paid-stored = refl

approved_milestone_rests_example :
    ((Grant.approve_milestone host funds 10 1 1 paid).1 ≡ paid)
    × ((Grant.reject_milestone host funds 10 1 1 paid).1 ≡ paid)
    × ((Grant.trigger_milestone_review host funds 10 1 1 paid).1 ≡ paid)
    × ((Grant.poll_milestone host funds (1, 1, paid_milestone) paid).1 ≡ paid)
approved_milestone_rests_example =
    approved_milestone_rests host funds paid 1 1 paid_milestone paid-stored 10 tt

-- An application is in the vote 1, which has approved, at the block 6.
abbrev reviewed : GrantApplication
reviewed = record {
  foundation_id = 1;
  submission_ref = 8;
  recipient = eleven;
  payment = 20;
  state = ApplicationState.under_review_by_acceptance_committee 1;
}

abbrev approving : Runtime (Map.Map ℕ)
approving = record opened {
  block_number = 6;
  ledger = (10, 0) ∷ [];
  vote = record opened_store {
    vote_states =
        (1, record (new none 10 five 1 none) { in_favor = 6; outcome = VoteOutcome.approved }) ∷ [];
  };
}

abbrev late : Grant.State (Map.Map ℕ)
late = record no_grant {
  base = approving;
  store = record no_grant.store { applications = (1, reviewed) ∷ [] };
}

late_finalize_idle_example : Grant.on_finalize host funds late ≡ some late
late_finalize_idle_example =
    late_finalize_idle host funds late (omega arith) (omega arith) (omega arith) (omega arith)

abbrev insured : InsuranceTrait
insured = record { minimum_dispute_amount = 5 }

-- All the 100 that account 10 has are locked for account 12; the vote 1 has approved.
abbrev disputed : DisputeState → Dispute
disputed state = record {
  locker = 10;
  locked_funds = 100;
  dispute_raiser = 12;
  resolution_metadata =
      VoteMetadata.signal (record { org = OrgRep.weighted 1; threshold = five; duration = none });
  state = state;
  expiry = none;
}

abbrev insurance : DisputeState → Insurance.State (Map.Map ℕ)
insurance state = record {
  base = approving;
  store = record {
    dispute_id_counter = 1;
    open_dispute_counter = 0;
    dispute_states = (1, disputed state) ∷ [];
  };
  posted = [];
}

dispute-stored :
    (state : DisputeState)
    → Map.get (insurance state).store.dispute_states 1 ≡ some (disputed state)
unfolding Map.get
dispute-stored state = refl

settled_dispute_rests_example :
    let s = insurance (DisputeState.dispute_raised_and_accepted 1) in
    ((Insurance.raise_dispute_to_trigger_vote host insured 12 1 s).1 ≡ s)
    × ((Insurance.poll_dispute_to_execute_outcome host insured 12 1 s).1 ≡ s)
settled_dispute_rests_example =
    settled_dispute_rests host insured (insurance (DisputeState.dispute_raised_and_accepted 1)) 12 1
      (disputed (DisputeState.dispute_raised_and_accepted 1))
      (dispute-stored (DisputeState.dispute_raised_and_accepted 1)) (inl (1, refl))
