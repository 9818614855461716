-- ===== src/Util/Moloch.antt =====
-- utils/src/moloch.rs: proposals to join the members of a bank.
use sunshine_node.Prelude.{ℕ}

pub data ProposalState : Type 0 where
  waiting_for_approval : ProposalState
  voting : ℕ → ProposalState
  approved_but_not_executed : ProposalState
  approved_and_executed : ProposalState

pub record MembershipProposal : Type 0 where
  pub id : ℕ × ℕ
  pub tribute : ℕ
  pub shares_requested : ℕ
  pub applicant : ℕ
  pub state : ProposalState

abbrev pub new : ℕ → ℕ → ℕ → ℕ → ℕ → MembershipProposal
new bank_id prop_id tribute shares_requested applicant = record {
  id = (bank_id, prop_id);
  tribute = tribute;
  shares_requested = shares_requested;
  applicant = applicant;
  state = ProposalState.waiting_for_approval;
}

abbrev pub set_state : MembershipProposal → ProposalState → MembershipProposal
set_state p state = record p { state = state }
