-- ===== src/Dispatch/Funding.antt =====
-- The `decl_error!` enumerations of the pallets that hold money for a purpose.
-- pallets/bounty/src/lib.rs
pub data BountyError : Type 0 where
  bounty_dne : BountyError
  submission_dne : BountyError
  bounty_post_must_exceed_min_deposit : BountyError
  contribution_must_exceed_module_min : BountyError
  depositer_cannot_submit_for_bounty : BountyError
  bounty_submission_exceeds_total_available_funding : BountyError
  submission_not_in_valid_state_to_approve : BountyError
  cannot_approve_submission_if_amount_exceeds_total_available : BountyError
  not_authorized_to_approve_bounty_submissions : BountyError
  issue_already_claimed_for_bounty_or_submission : BountyError

-- pallets/bounty2/src/lib.rs
pub data Bounty2Error : Type 0 where
  bounty_dne : Bounty2Error
  submission_dne : Bounty2Error
  bounty_post_must_exceed_min_deposit : Bounty2Error
  contribution_must_exceed_module_min : Bounty2Error
  depositer_cannot_submit_for_bounty : Bounty2Error
  bounty_submission_exceeds_total_available_funding : Bounty2Error
  submission_not_in_valid_state_to_approve : Bounty2Error
  cannot_approve_submission_if_amount_exceeds_total_available : Bounty2Error
  not_authorized_to_approve_bounty_submissions : Bounty2Error

-- pallets/grant/src/lib.rs
pub data GrantError : Type 0 where
  foundation_dne : GrantError
  application_dne : GrantError
  milestone_dne : GrantError
  deposit_below_min_deposit : GrantError
  contribution_below_min_contribution : GrantError
  application_must_be_approved_to_submit_milestone : GrantError
  application_not_in_valid_state_to_trigger_review : GrantError
  not_authorized_to_trigger_application_review : GrantError
  application_not_in_valid_state_to_approve : GrantError
  application_not_in_valid_state_to_reject : GrantError
  not_authorized_to_approve_application : GrantError
  not_authorized_to_reject_application : GrantError
  not_authorized_to_trigger_milestone_review : GrantError
  milestone_not_in_valid_state_to_trigger_review : GrantError
  milestone_not_in_valid_state_to_approve : GrantError
  milestone_not_in_valid_state_to_reject : GrantError
  not_authorized_to_approve_milestone : GrantError
  not_authorized_to_reject_milestone : GrantError

-- pallets/kickback/src/lib.rs
pub data KickbackError : Type 0 where
  kickback_event_dne : KickbackError
  event_reservation_req_below_module_min : KickbackError
  event_attendance_limit_above_module_max : KickbackError
  already_made_reservation : KickbackError
  attendance_limit_reached : KickbackError
  attendance_must_be_greater_than_zero : KickbackError
  not_authorized_to_publish_attendance : KickbackError

-- pallets/drip/src/lib.rs
pub data DripError : Type 0 where
  do_not_drip_to_self : DripError
  rate_period_length_must_be_greater_than_zero : DripError
  rate_amount_must_be_greater_than_zero : DripError
  drip_dne : DripError
  not_authorized_to_cancel_drip : DripError
