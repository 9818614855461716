-- ===== src/Moloch/Spend.antt =====
-- `impl SpendGovernance` of the moloch pallet: the spends from the bank of a moloch.
use sunshine_node.Prelude.{ℕ, none}
use sunshine_node.Storage.Map
use sunshine_node.Storage.DoubleMap
use sunshine_node.Dispatch.{MolochError}
use sunshine_node.Exec.{Exec, pure, raise, gets, ok_or, attempt, ensure, ◌>>=◌, ◌>>◌}
use sunshine_node.Util.Vote.{VoteOutcome}
use sunshine_node.Util.Bank
use sunshine_node.Util.Bank.{SpendProposal, SpendState, set_state, is_controller}
use sunshine_node.Runtime.{Config, on_base, on_store}
use sunshine_node.Org
use sunshine_node.Vote
use sunshine_node.Bank.{executed_if}
use sunshine_node.Moloch.Base.{State, fail, generate_spend_uid, bank_account_id, pay}

module _ {L : Type 0} where
  abbrev pub put_spend : ℕ → ℕ → SpendProposal → Exec (State L) (Unit {0})
  put_spend bank_id spend_id p =
      on_store (λ s. record s { spend_props = DoubleMap.insert s.spend_props bank_id spend_id p })

  unfoldable pub propose_spend_for : ℕ → ℕ → ℕ → ℕ → Exec (State L) ℕ
  unfolding generate_spend_uid
  propose_spend_for caller bank_id amount dest = do
    s ← gets (λ s. s)
    bank ←
        ok_or (Map.get s.store.bank_stores bank_id)
          (fail MolochError.bank_must_exist_to_propose_from)
    ensure (Org.is_member_of_group s.base.org bank.org caller)
        (fail MolochError.must_be_member_to_sponsor_proposal)
    new_spend_id ← generate_spend_uid bank_id
    put_spend bank_id new_spend_id (Bank.new bank_id new_spend_id amount dest)
    pure new_spend_id

module _ (T : Config) where
  abbrev pub trigger_from : SpendState → ℕ → ℕ → ℕ → SpendProposal → Exec (State T.Ledger) ℕ
  trigger_from SpendState.waiting_for_approval threshold_id bank_id spend_id spend_proposal = do
    new_vote_id ← on_base (Vote.invoke_threshold T threshold_id none none)
    put_spend bank_id spend_id (set_state spend_proposal (SpendState.voting new_vote_id))
    pure new_vote_id
  trigger_from _ threshold_id bank_id spend_id spend_proposal =
      raise (fail MolochError.cannot_trigger_vote_from_current_spend_proposal_state)

  unfoldable pub trigger_vote_on_spend_proposal : ℕ → ℕ → ℕ → Exec (State T.Ledger) ℕ
  trigger_vote_on_spend_proposal caller bank_id spend_id = do
    s ← gets (λ s. s)
    bank ←
        ok_or (Map.get s.store.bank_stores bank_id)
          (fail MolochError.cannot_trigger_vote_if_base_bank_dne)
    spend_proposal ←
        ok_or (DoubleMap.get s.store.spend_props bank_id spend_id)
          (fail MolochError.cannot_trigger_vote_if_proposal_dne)
    ensure (Org.is_member_of_group s.base.org bank.org caller)
        (fail MolochError.not_permitted_to_trigger_vote_for_bank_account)
    trigger_from spend_proposal.state bank.threshold_id bank_id spend_id spend_proposal

  -- The attempt to pay, and the state that it leads to.
  abbrev execute : ℕ → SpendProposal → Exec (State T.Ledger) SpendState
  execute bank_id spend_proposal = do
    paid ← attempt (pay T (bank_account_id T bank_id) spend_proposal.dest spend_proposal.amount)
    pure (executed_if paid)

  abbrev approve_now : ℕ → ℕ → SpendProposal → Exec (State T.Ledger) (Unit {0})
  approve_now bank_id spend_id spend_proposal = do
    state ← execute bank_id spend_proposal
    put_spend bank_id spend_id (set_state spend_proposal state)

  -- Other than in the bank pallet, a spend that is voted on can be approved too.
  abbrev pub approve_from : SpendState → ℕ → ℕ → SpendProposal → Exec (State T.Ledger) (Unit {0})
  approve_from SpendState.waiting_for_approval bank_id spend_id spend_proposal =
      approve_now bank_id spend_id spend_proposal
  approve_from (SpendState.voting _) bank_id spend_id spend_proposal =
      approve_now bank_id spend_id spend_proposal
  approve_from _ bank_id spend_id spend_proposal =
      raise (fail MolochError.cannot_approve_already_approved_spend_proposal)

  unfoldable pub approve_spend_by_sudo : ℕ → ℕ → ℕ → Exec (State T.Ledger) (Unit {0})
  approve_spend_by_sudo caller bank_id spend_id = do
    s ← gets (λ s. s.store)
    bank ←
        ok_or (Map.get s.bank_stores bank_id)
          (fail MolochError.cannot_sudo_approve_spend_proposal_if_base_bank_dne)
    ensure (is_controller bank caller)
        (fail MolochError.not_permitted_to_sudo_approve_for_bank_account)
    spend_proposal ←
        ok_or (DoubleMap.get s.spend_props bank_id spend_id)
          (fail MolochError.cannot_sudo_approve_spend_proposal_if_spend_proposal_dne)
    approve_from spend_proposal.state bank_id spend_id spend_proposal

  abbrev conclude : VoteOutcome → SpendProposal → Exec (State T.Ledger) SpendState
  conclude VoteOutcome.approved prop = do
    state ← execute prop.id.0 prop
    put_spend prop.id.0 prop.id.1 (set_state prop state)
    pure state
  conclude _ prop = pure prop.state

  abbrev pub poll_from : SpendState → SpendProposal → Exec (State T.Ledger) SpendState
  poll_from (SpendState.voting vote_id) prop = do
    vote_outcome ← on_base (Vote.get_vote_outcome vote_id)
    conclude vote_outcome prop
  poll_from _ prop = pure prop.state

  unfoldable pub poll_spend_proposal : SpendProposal → Exec (State T.Ledger) SpendState
  poll_spend_proposal prop = do
    s ← gets (λ s. s.store)
    _ ←
        ok_or (Map.get s.bank_stores prop.id.0)
          (fail MolochError.cannot_poll_proposal_if_base_bank_dne)
    _ ←
        ok_or (DoubleMap.get s.spend_props prop.id.0 prop.id.1)
          (fail MolochError.cannot_poll_proposal_if_proposal_dne)
    poll_from prop.state prop
