-- ===== src/Bank/Spend.antt =====
-- `impl SpendGovernance` of the bank pallet: a spend is proposed, voted on or approved by the
-- controller, and executed.
use sunshine_node.Prelude.{ℕ, none}
use sunshine_node.Storage.Map
use sunshine_node.Storage.DoubleMap
use sunshine_node.Dispatch.{DispatchError, BankError, Result, ok, err}
use sunshine_node.Exec.{Exec, pure, raise, gets, ok_or, attempt, ensure, ◌>>=◌, ◌>>◌}
use sunshine_node.Util.Vote.{VoteOutcome}
use sunshine_node.Util.Bank
use sunshine_node.Util.Bank.{SpendProposal, SpendState, set_state, is_controller}
use sunshine_node.Runtime.{Runtime, Config, Call, on_ledger}
use sunshine_node.Org
use sunshine_node.Vote
use sunshine_node.Bank.Base.{is_bank, generate_spend_uid, on_bank, bank_account_id}

module _ {L : Type 0} where
  abbrev pub put_spend : ℕ → ℕ → SpendProposal → Exec (Runtime L) (Unit {0})
  put_spend bank_id spend_id p =
      on_bank
        (λ s. record s { spend_proposals = DoubleMap.insert s.spend_proposals bank_id spend_id p })

  unfoldable pub propose_spend_for : ℕ → ℕ → ℕ → ℕ → Exec (Runtime L) ℕ
  propose_spend_for caller bank_id amount dest = do
    s ← gets (λ s. s)
    bank ←
        ok_or (Map.get s.bank.banks bank_id)
          (DispatchError.bank BankError.bank_must_exist_to_propose_spend_from)
    ensure (Org.is_member_of_group s.org bank.org caller)
        (DispatchError.bank BankError.not_permitted_to_propose_spend_for_bank_account)
    id ← generate_spend_uid bank_id
    put_spend bank_id id (Bank.new bank_id id amount dest)
    pure id

abbrev pub executed_if : Result (Unit {0}) → SpendState
executed_if (ok _) = SpendState.approved_and_executed
executed_if (err _) = SpendState.approved_but_not_executed

module _ (T : Config) where
  open T use {transfer}

  abbrev pub begin_voting : ℕ → ℕ → SpendProposal → ℕ → Call T ℕ
  begin_voting bank_id spend_id spend_proposal new_vote_id = do
    put_spend bank_id spend_id (set_state spend_proposal (SpendState.voting new_vote_id))
    pure new_vote_id

  abbrev pub trigger_from : SpendState → ℕ → ℕ → ℕ → SpendProposal → Call T ℕ
  trigger_from SpendState.waiting_for_approval threshold_id bank_id spend_id spend_proposal = do
    new_vote_id ← Vote.invoke_threshold T threshold_id none none
    begin_voting bank_id spend_id spend_proposal new_vote_id
  trigger_from _ threshold_id bank_id spend_id spend_proposal =
      raise (DispatchError.bank BankError.cannot_trigger_vote_from_current_spend_proposal_state)

  unfoldable pub trigger_vote_on_spend_proposal : ℕ → ℕ → ℕ → Call T ℕ
  trigger_vote_on_spend_proposal caller bank_id spend_id = do
    s ← gets (λ s. s)
    bank ←
        ok_or (Map.get s.bank.banks bank_id)
          (DispatchError.bank BankError.cannot_trigger_vote_for_spend_if_base_bank_dne)
    ensure (Org.is_member_of_group s.org bank.org caller)
        (DispatchError.bank BankError.not_permitted_to_trigger_vote_for_bank_account)
    spend_proposal ←
        ok_or (DoubleMap.get s.bank.spend_proposals bank_id spend_id)
          (DispatchError.bank BankError.cannot_trigger_vote_for_spend_if_spend_proposal_dne)
    trigger_from spend_proposal.state bank.threshold_id bank_id spend_id spend_proposal

  -- `transfer` from the account of the bank to the destination of the spend.
  abbrev pub payment : ℕ → SpendProposal → Call T (Unit {0})
  payment bank_id p = on_ledger (transfer (bank_account_id T bank_id) p.dest p.amount)

  -- The attempt to pay, and the state that it leads to.
  abbrev pub execute : ℕ → SpendProposal → Call T SpendState
  execute bank_id spend_proposal = do
    paid ←
        attempt (
          on_ledger
            (transfer (bank_account_id T bank_id) spend_proposal.dest spend_proposal.amount))
    pure (executed_if paid)

  abbrev pub approve_from : SpendState → ℕ → ℕ → SpendProposal → Call T (Unit {0})
  approve_from SpendState.waiting_for_approval bank_id spend_id spend_proposal = do
    state ← execute bank_id spend_proposal
    put_spend bank_id spend_id (set_state spend_proposal state)
  approve_from _ bank_id spend_id spend_proposal =
      raise (DispatchError.bank BankError.cannot_sudo_approve_from_current_state)

  unfoldable pub sudo_approve_spend_proposal : ℕ → ℕ → ℕ → Call T (Unit {0})
  sudo_approve_spend_proposal caller bank_id spend_id = do
    s ← gets (λ s. s)
    bank ←
        ok_or (Map.get s.bank.banks bank_id)
          (DispatchError.bank BankError.cannot_sudo_approve_spend_proposal_if_base_bank_dne)
    ensure (is_controller bank caller)
        (DispatchError.bank BankError.only_controller_can_sudo_approve_spend_proposals)
    spend_proposal ←
        ok_or (DoubleMap.get s.bank.spend_proposals bank_id spend_id)
          (DispatchError.bank BankError.cannot_sudo_approve_spend_proposal_if_spend_proposal_dne)
    approve_from spend_proposal.state bank_id spend_id spend_proposal

  abbrev pub conclude : VoteOutcome → SpendProposal → Call T SpendState
  conclude VoteOutcome.approved prop = do
    state ← execute prop.id.0 prop
    put_spend prop.id.0 prop.id.1 (set_state prop state)
    pure state
  conclude _ prop = pure prop.state

  abbrev pub poll_from : SpendState → SpendProposal → Call T SpendState
  poll_from (SpendState.voting vote_id) prop = do
    vote_outcome ← Vote.get_vote_outcome vote_id
    conclude vote_outcome prop
  poll_from _ prop = pure prop.state

  unfoldable pub poll_spend_proposal : SpendProposal → Call T SpendState
  unfolding Vote.get_vote_outcome
  poll_spend_proposal prop = do
    s ← gets (λ s. s.bank)
    ensure (is_bank s prop.id.0)
        (DispatchError.bank BankError.cannot_poll_spend_proposal_if_base_bank_dne)
    _ ←
        ok_or (DoubleMap.get s.spend_proposals prop.id.0 prop.id.1)
          (DispatchError.bank BankError.cannot_poll_spend_proposal_if_spend_proposal_dne)
    poll_from prop.state prop
