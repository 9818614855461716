-- ===== src/Moloch/Membership.antt =====
-- `impl MolochMembership` of the moloch pallet: membership is proposed, voted on and, against a
-- tribute, given; a member burns its shares for its portion of the bank.
use sunshine_node.Prelude.{ℕ, none, false}
use sunshine_node.Storage.Map
use sunshine_node.Storage.DoubleMap
use sunshine_node.Dispatch.{MolochError, Result, ok, err}
use sunshine_node.Exec.{Exec, pure, raise, gets, ok_or, attempt, ensure, ◌>>=◌, ◌>>◌}
use sunshine_node.Util.Vote.{VoteOutcome}
use sunshine_node.Util.Bank.{BankState}
use sunshine_node.Util.Moloch
use sunshine_node.Util.Moloch.{MembershipProposal, ProposalState, set_state}
use sunshine_node.Runtime.{Config, on_base, on_store, post}
use sunshine_node.Org
use sunshine_node.Vote
use sunshine_node.Moloch.Base.{
  State, MolochEvent, fail, generate_proposal_uid, bank_account_id, pay,
}

module _ {L : Type 0} where
  abbrev pub put_member : ℕ → ℕ → MembershipProposal → Exec (State L) (Unit {0})
  put_member bank_id proposal_id p =
      on_store
        (λ s. record s { member_props = DoubleMap.insert s.member_props bank_id proposal_id p })

  unfoldable pub propose_member_for : ℕ → ℕ → ℕ → ℕ → ℕ → Exec (State L) ℕ
  unfolding generate_proposal_uid
  propose_member_for caller bank_id tribute shares_requested applicant = do
    s ← gets (λ s. s)
    bank ←
        ok_or (Map.get s.store.bank_stores bank_id)
          (fail MolochError.bank_must_exist_to_propose_from)
    ensure (Org.is_member_of_group s.base.org bank.org caller)
        (fail MolochError.must_be_member_to_sponsor_proposal)
    id ← generate_proposal_uid bank_id
    put_member bank_id id (Moloch.new bank_id id tribute shares_requested applicant)
    pure id

abbrev pub executed_if : Result (Unit {0}) → ProposalState
executed_if (ok _) = ProposalState.approved_and_executed
executed_if (err _) = ProposalState.approved_but_not_executed

module _ (T : Config) where
  open T use {total_balance, mul_floor}

  -- The tribute is paid first; if the issue fails then, it stays paid.
  unfoldable pub execute_member_proposal : BankState → ℕ → ℕ → ℕ → Exec (State T.Ledger) (Unit {0})
  execute_member_proposal bank applicant tribute shares_to_mint = do
    pay T applicant (bank_account_id T bank.id) tribute
    on_base (Org.issue bank.org applicant shares_to_mint false)

  abbrev pub trigger_from : ProposalState → ℕ → ℕ → ℕ → MembershipProposal → Exec (State T.Ledger) ℕ
  trigger_from ProposalState.waiting_for_approval threshold_id bank_id proposal_id member_proposal =
      do
        new_vote_id ← on_base (Vote.invoke_threshold T threshold_id none none)
        put_member bank_id proposal_id
            (set_state member_proposal (ProposalState.voting new_vote_id))
        pure new_vote_id
  trigger_from _ threshold_id bank_id proposal_id member_proposal =
      raise (fail MolochError.cannot_trigger_vote_from_current_member_proposal_state)

  unfoldable pub trigger_vote_on_member_proposal : ℕ → ℕ → ℕ → Exec (State T.Ledger) ℕ
  trigger_vote_on_member_proposal caller bank_id proposal_id = do
    s ← gets (λ s. s)
    bank ←
        ok_or (Map.get s.store.bank_stores bank_id)
          (fail MolochError.cannot_trigger_vote_if_base_bank_dne)
    ensure (Org.is_member_of_group s.base.org bank.org caller)
        (fail MolochError.not_permitted_to_trigger_vote_for_bank_account)
    member_proposal ←
        ok_or (DoubleMap.get s.store.member_props bank_id proposal_id)
          (fail MolochError.cannot_trigger_vote_if_proposal_dne)
    trigger_from member_proposal.state bank.threshold_id bank_id proposal_id member_proposal

  abbrev conclude :
      VoteOutcome → BankState → MembershipProposal → Exec (State T.Ledger) ProposalState
  conclude VoteOutcome.approved bank prop = do
    done ← attempt (execute_member_proposal bank prop.applicant prop.tribute prop.shares_requested)
    let state = executed_if done
    put_member prop.id.0 prop.id.1 (set_state prop state)
    pure state
  conclude _ bank prop = pure prop.state

  abbrev pub poll_from :
      ProposalState → BankState → MembershipProposal → Exec (State T.Ledger) ProposalState
  poll_from (ProposalState.voting vote_id) bank prop = do
    vote_outcome ← on_base (Vote.get_vote_outcome vote_id)
    conclude vote_outcome bank prop
  poll_from _ bank prop = pure prop.state

  unfoldable pub poll_membership_proposal : MembershipProposal → Exec (State T.Ledger) ProposalState
  unfolding execute_member_proposal
  poll_membership_proposal prop = do
    s ← gets (λ s. s.store)
    bank ←
        ok_or (Map.get s.bank_stores prop.id.0)
          (fail MolochError.cannot_poll_proposal_if_base_bank_dne)
    _ ←
        ok_or (DoubleMap.get s.member_props prop.id.0 prop.id.1)
          (fail MolochError.cannot_poll_proposal_if_proposal_dne)
    poll_from prop.state bank prop

  unfoldable pub burn_shares_for : ℕ → ℕ → Exec (State T.Ledger) (Unit {0})
  burn_shares_for caller bank_id = do
    s ← gets (λ s. s.store)
    bank ←
        ok_or (Map.get s.bank_stores bank_id) (fail MolochError.cannot_burn_shares_if_base_bank_dne)
    shares_burned ← on_base (Org.burn T bank.org caller none false)
    post (MolochEvent.shares_burned bank.org shares_burned.total)
    let account = bank_account_id T bank_id
    balance_in_bank ← gets (λ s. total_balance s.base.ledger account)
    let amt_due = mul_floor shares_burned.portion balance_in_bank
    pay T account caller amt_due
    amt_left ← gets (λ s. total_balance s.base.ledger account)
    post (MolochEvent.withdrawn_portion bank_id amt_due amt_left)
