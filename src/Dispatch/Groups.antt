-- ===== src/Dispatch/Groups.antt =====
-- The `decl_error!` enumerations of the pallets about groups.
-- pallets/moloch/src/lib.rs
pub data MolochError : Type 0 where
  limit_of_one_moloch_per_org : MolochError
  insufficient_balance_to_fund_bank_open : MolochError
  cannot_open_bank_account_if_deposit_is_below_module_minimum : MolochError
  cannot_open_bank_account_for_org_if_bank_count_exceeds_limit_per_org : MolochError
  cannot_close_bank_that_dne : MolochError
  not_permitted_to_open_bank_account_for_org : MolochError
  not_permitted_to_trigger_vote_for_bank_account : MolochError
  not_permitted_to_sudo_approve_for_bank_account : MolochError
  not_permitted_to_poll_proposal_for_bank_account : MolochError
  cannot_spend_if_bank_dne : MolochError
  must_be_org_supervisor_to_close_bank_account : MolochError
  cannot_propose_if_bank_dne : MolochError
  bank_must_exist_to_propose_from : MolochError
  cannot_trigger_vote_if_base_bank_dne : MolochError
  cannot_trigger_vote_if_proposal_dne : MolochError
  must_be_member_to_sponsor_proposal : MolochError
  cannot_trigger_vote_from_current_spend_proposal_state : MolochError
  cannot_sudo_approve_spend_proposal_if_base_bank_dne : MolochError
  cannot_sudo_approve_spend_proposal_if_spend_proposal_dne : MolochError
  cannot_approve_already_approved_spend_proposal : MolochError
  cannot_poll_proposal_if_base_bank_dne : MolochError
  cannot_poll_proposal_if_proposal_dne : MolochError
  cannot_trigger_vote_from_current_member_proposal_state : MolochError
  cannot_burn_shares_if_base_bank_dne : MolochError
  no_banks_for_org : MolochError
  threshold_cannot_be_set_for_org : MolochError

-- pallets/recovery/src/lib.rs
pub data RecoveryError : Type 0 where
  secret_dne : RecoveryError
  user_cannot_afford_request : RecoveryError
  not_authorized_for_secret : RecoveryError
  commit_already_made_for_round : RecoveryError
  must_hash_before_preimage : RecoveryError
  must_commit_hash_in_same_round : RecoveryError
  preimage_hash_dne_hash : RecoveryError
  preimage_already_committed : RecoveryError
  recovery_request_pending : RecoveryError
  must_request_recovery_before : RecoveryError
  cannot_increment_round_from_secret_state : RecoveryError
  must_commit_hash_before_recovery_requested : RecoveryError
  only_reveal_preimage_if_recovery_requested : RecoveryError

-- pallets/rank/src/lib.rs
pub data RankError : Type 0 where
  vote_dne : RankError
  not_authorized_to_close : RankError
  not_authorized_to_lock : RankError
  not_authorized_to_vote : RankError
  must_be_open_to_lock : RankError
  locked_votes_do_not_accept_votes : RankError

-- pallets/court/src/lib.rs
pub data CourtError : Type 0 where
  court_dne : CourtError
  bond_must_exceed_min : CourtError

-- pallets/insurance/src/lib.rs
pub data InsuranceError : Type 0 where
  cannot_raise_dispute_if_dispute_state_dne : InsuranceError
  dispute_must_exceed_module_minimum : InsuranceError
  cannot_poll_dispute_if_dispute_state_dne : InsuranceError
  signer_not_authorized_to_raise_this_dispute : InsuranceError
  active_dispute_cannot_be_raised_from_current_state : InsuranceError
  active_dispute_cannot_be_polled_from_current_state : InsuranceError
  vote_outcome_inconclusive_so_poll_cannot_execute_outcome : InsuranceError
