-- ===== src/Dispatch.antt =====
-- The `decl_error!` enumerations of the pallets (pallets/*/src/lib.rs), and the DispatchError that
-- carries them. The errors of code outside the repository are numbered.
mod Funding
mod Groups
pub use Funding.*
pub use Groups.*
use sunshine_node.Prelude.{ℕ, ◌≡◌, refl, ◌⊎◌, inl, inr, Bool, true, false}

pub data OrgError : Type 0 where
  org_dne : OrgError
  profile_dne : OrgError
  not_authorized_for_account : OrgError
  cannot_burn_more_than_total_shares : OrgError
  not_enough_shares_to_satisfy_burn_request : OrgError
  issuance_cannot_go_negative : OrgError
  genesis_total_must_equal_sum_to_use_batch_ops : OrgError
  issuance_would_overflow_shares : OrgError
  issuance_goes_negative_while_removing_member : OrgError
  cannot_lock_if_already_locked : OrgError
  cannot_un_lock_if_already_un_locked : OrgError
  organization_cannot_be_removed_if_input_id_is_available : OrgError
  account_has_no_ownership_in_org : OrgError

pub data VoteError : Type 0 where
  vote_past_expiration_time_so_votes_not_accepted : VoteError
  signal_not_minted_for_voter : VoteError
  not_authorized_to_create_vote_for_organization : VoteError
  no_vote_state_for_outcome_query : VoteError
  no_vote_state_for_vote_request : VoteError
  cannot_mint_signal_because_group_membership_dne : VoteError
  cannot_mint_signal_because_membership_shape_dne : VoteError
  old_vote_direction_equals_new_vote_direction_so_no_change : VoteError
  cannot_update_vote_if_vote_state_dne : VoteError
  vote_change_not_supported : VoteError
  input_threshold_exceeds_bounds : VoteError
  only_supervisor_can_set_generic_thresholds : VoteError
  cannot_invoke_threshold_that_dne : VoteError

pub data DonateError : Type 0 where
  account_has_no_ownership_in_org : DonateError
  not_enough_funds_in_free_to_make_transfer : DonateError
  cannot_donate_to_org_that_dne : DonateError

pub data BankError : Type 0 where
  cannot_open_bank_account_if_deposit_is_below_module_minimum : BankError
  insufficient_balance_to_fund_bank_open : BankError
  committee_count_exceeds_limit_per_org : BankError
  cannot_close_bank_that_dne : BankError
  not_permitted_to_open_bank_account_for_org : BankError
  not_permitted_to_propose_spend_for_bank_account : BankError
  not_permitted_to_trigger_vote_for_bank_account : BankError
  not_permitted_to_poll_spend_proposal_for_bank_account : BankError
  cannot_spend_if_bank_dne : BankError
  only_controller_can_close_bank : BankError
  only_controller_can_sudo_approve_spend_proposals : BankError
  cannot_propose_spend_if_bank_dne : BankError
  bank_must_exist_to_propose_spend_from : BankError
  cannot_trigger_vote_for_spend_if_base_bank_dne : BankError
  cannot_trigger_vote_for_spend_if_spend_proposal_dne : BankError
  cannot_trigger_vote_from_current_spend_proposal_state : BankError
  cannot_sudo_approve_spend_proposal_if_base_bank_dne : BankError
  cannot_sudo_approve_spend_proposal_if_spend_proposal_dne : BankError
  cannot_sudo_approve_from_current_state : BankError
  cannot_poll_spend_proposal_if_base_bank_dne : BankError
  cannot_poll_spend_proposal_if_spend_proposal_dne : BankError
  no_banks_for_org : BankError
  threshold_cannot_be_set_for_org : BankError

pub data DispatchError : Type 0 where
  org : OrgError → DispatchError
  vote : VoteError → DispatchError
  donate : DonateError → DispatchError
  bank : BankError → DispatchError
  bounty : BountyError → DispatchError
  bounty2 : Bounty2Error → DispatchError
  grant : GrantError → DispatchError
  kickback : KickbackError → DispatchError
  drip : DripError → DispatchError
  moloch : MolochError → DispatchError
  recovery : RecoveryError → DispatchError
  rank : RankError → DispatchError
  court : CourtError → DispatchError
  insurance : InsuranceError → DispatchError
  other : ℕ → DispatchError

-- Rust's `Result<A, DispatchError>`.
pub data Result {ℓ} (A : Type ℓ) : Type ℓ where
  ok : A → Result A
  err : DispatchError → Result A

abbrev pub is_err {ℓ} : {A : Type ℓ} → Result A → Bool
is_err (ok _) = false
is_err (err _) = true

pub Result-cases {ℓ} :
    {A : Type ℓ} (r : Result A) → ((a : A) × (r ≡ ok a)) ⊎ ((e : DispatchError) × (r ≡ err e))
Result-cases (ok a) = inl (a, refl)
Result-cases (err e) = inr (e, refl)
