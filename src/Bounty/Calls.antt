-- ===== src/Bounty/Calls.antt =====
-- The dispatchable calls of the bounty pallet.
use sunshine_node.Prelude.{ℕ, not, is_none, Option, none, some, leb, ◌==◌}
use sunshine_node.Storage.Map
use sunshine_node.Storage.DoubleMap
use sunshine_node.Dispatch.{DispatchError, BountyError}
use sunshine_node.Exec.{Exec, gets, lift, ok_or, ensure, modify, ◌>>=◌, ◌>>◌}
use sunshine_node.Util.Bounty.{
  BountyInformation, Contribution, SubmissionState, add_total, subtract_total, add_contribution,
  new_submission, awaiting_review,
}
use sunshine_node.Runtime.{Config, on_store, on_money, post}
use sunshine_node.Bounty.Base.{
  BountyEvent, State, BountyTrait, bounty_generate_uid, submission_generate_uid,
}

abbrev fail : BountyError → DispatchError
fail = DispatchError.bounty

abbrev raised : Option Contribution → ℕ → ℕ → ℕ → Contribution
raised none bounty_id contributor amount = record {
  id = bounty_id;
  account = contributor;
  total = amount;
}
raised (some a) bounty_id contributor amount = add_contribution a amount

module _ (T : Config) (K : BountyTrait) where
  open T use {Origin, ensure_signed, transfer, withdraw, resolve_creating}
  open K use {bounty_account_id, min_deposit, min_contribution}

  unfoldable pub post_bounty : Origin → ℕ → ℕ → ℕ → Exec (State T.Ledger) (Unit {0})
  unfolding bounty_generate_uid
  post_bounty origin issue info amount = do
    s ← gets (λ s. s.store)
    ensure (is_none (Map.get s.issue_hash_set issue))
        (fail BountyError.issue_already_claimed_for_bounty_or_submission)
    ensure (leb min_deposit amount) (fail BountyError.bounty_post_must_exceed_min_deposit)
    depositer ← lift (ensure_signed origin)
    on_money (withdraw depositer amount)
    id ← bounty_generate_uid
    let bounty : BountyInformation = record {
      id = id;
      info = info;
      depositer = depositer;
      total = amount;
    }
    on_money (modify (resolve_creating (bounty_account_id id) amount))
    on_store (λ s. record s {
      issue_hash_set = Map.insert s.issue_hash_set issue tt;
      bounties = Map.insert s.bounties id bounty;
      contributions =
          DoubleMap.insert s.contributions id depositer
            (record { id = id; account = depositer; total = amount });
    })
    post (BountyEvent.bounty_posted depositer amount id info)

  unfoldable pub contribute_to_bounty : Origin → ℕ → ℕ → Exec (State T.Ledger) (Unit {0})
  contribute_to_bounty origin bounty_id amount = do
    ensure (leb min_contribution amount) (fail BountyError.contribution_must_exceed_module_min)
    contributor ← lift (ensure_signed origin)
    s ← gets (λ s. s.store)
    bounty ← ok_or (Map.get s.bounties bounty_id) (fail BountyError.bounty_dne)
    on_money (transfer contributor (bounty_account_id bounty_id) amount)
    let new_contribution =
        raised (DoubleMap.get s.contributions bounty_id contributor) bounty_id contributor amount
    let new_bounty = add_total bounty amount
    on_store (λ s. record s {
      contributions = DoubleMap.insert s.contributions bounty_id contributor new_contribution;
      bounties = Map.insert s.bounties bounty_id new_bounty;
    })
    post (
        BountyEvent.bounty_raise_contribution contributor amount bounty_id new_bounty.total
          bounty.info)

  unfoldable pub submit_for_bounty : Origin → ℕ → ℕ → ℕ → ℕ → Exec (State T.Ledger) (Unit {0})
  unfolding submission_generate_uid
  submit_for_bounty origin bounty_id issue submission_ref amount = do
    s ← gets (λ s. s.store)
    ensure (is_none (Map.get s.issue_hash_set issue))
        (fail BountyError.issue_already_claimed_for_bounty_or_submission)
    bounty ← ok_or (Map.get s.bounties bounty_id) (fail BountyError.bounty_dne)
    submitter ← lift (ensure_signed origin)
    ensure (not (submitter == bounty.depositer))
        (fail BountyError.depositer_cannot_submit_for_bounty)
    ensure (leb amount bounty.total)
        (fail BountyError.bounty_submission_exceeds_total_available_funding)
    id ← submission_generate_uid
    let submission =
        new_submission SubmissionState.submitted_awaiting_response bounty_id id submission_ref
          submitter amount
    on_store (λ s. record s {
      submissions = Map.insert s.submissions id submission;
      issue_hash_set = Map.insert s.issue_hash_set issue tt;
    })
    post (
        BountyEvent.bounty_submission_posted submitter bounty_id amount id bounty.info
          submission_ref)

  unfoldable pub approve_bounty_submission : Origin → ℕ → Exec (State T.Ledger) (Unit {0})
  approve_bounty_submission origin submission_id = do
    approver ← lift (ensure_signed origin)
    s ← gets (λ s. s.store)
    submission ← ok_or (Map.get s.submissions submission_id) (fail BountyError.submission_dne)
    ensure (awaiting_review submission.state)
        (fail BountyError.submission_not_in_valid_state_to_approve)
    let bounty_id = submission.id.0
    bounty ← ok_or (Map.get s.bounties bounty_id) (fail BountyError.bounty_dne)
    ensure (leb submission.amount bounty.total)
        (fail BountyError.cannot_approve_submission_if_amount_exceeds_total_available)
    ensure (bounty.depositer == approver)
        (fail BountyError.not_authorized_to_approve_bounty_submissions)
    on_money (transfer (bounty_account_id bounty_id) submission.submitter submission.amount)
    let new_bounty = subtract_total bounty submission.amount
    on_store (λ s. record s {
      submissions = Map.remove s.submissions submission_id;
      bounties = Map.insert s.bounties bounty_id new_bounty;
    })
    post (
        BountyEvent.bounty_payment_executed bounty_id new_bounty.total submission_id
          submission.amount submission.submitter new_bounty.info submission.submission_ref)
