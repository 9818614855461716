-- ===== src/Moloch/Calls.antt =====
-- The dispatchable calls of the moloch pallet, and its hook at the end of a block.
use sunshine_node.Prelude.{ℕ, ◌%◌, is_none, Option, none, some, ◌==◌, if◌then◌else◌}
use sunshine_node.Word.{sub32}
use sunshine_node.Storage.Map
use sunshine_node.Dispatch.{MolochError, Result, ok, err}
use sunshine_node.Exec.{Exec, pure, gets, lift, ok_or, attempt, ensure, for_each, ◌>>=◌, ◌>>◌}
use sunshine_node.Util.Organization.{OrgRep}
use sunshine_node.Util.Vote.{ThresholdInput}
use sunshine_node.Util.Bank.{SpendProposal, SpendState, is_controller}
use sunshine_node.Util.Moloch.{MembershipProposal, ProposalState}
use sunshine_node.Runtime.{Config, on_base, on_store, post}
use sunshine_node.Org
use sunshine_node.Donate.{donate}
use sunshine_node.Moloch.Base.{State, MolochEvent, fail, open_bank_account, bank_account_id}
use sunshine_node.Moloch.Spend.{
  propose_spend_for, trigger_vote_on_spend_proposal, approve_spend_by_sudo, poll_spend_proposal,
}
use sunshine_node.Moloch.Membership.{
  propose_member_for, trigger_vote_on_member_proposal, poll_membership_proposal, burn_shares_for,
}

module _ (T : Config) where
  open T use {Origin, ensure_signed, total_balance}

  unfoldable pub summon :
      Origin → ℕ → ℕ → Option ℕ → ThresholdInput OrgRep → Exec (State T.Ledger) (Unit {0})
  summon origin org deposit controller threshold = do
    s ← gets (λ s. s)
    ensure (is_none (Map.get s.store.org_bank_registrar org))
        (fail MolochError.limit_of_one_moloch_per_org)
    opener ← lift (ensure_signed origin)
    ensure (Org.is_member_of_group s.base.org org opener)
        (fail MolochError.not_permitted_to_open_bank_account_for_org)
    bank_id ← open_bank_account T opener org deposit controller threshold
    on_store (λ s. record s { org_bank_registrar = Map.insert s.org_bank_registrar org tt })
    post (MolochEvent.account_opened opener bank_id deposit org controller)

  unfoldable pub propose_spend : Origin → ℕ → ℕ → ℕ → Exec (State T.Ledger) (Unit {0})
  propose_spend origin bank_id amount dest = do
    caller ← lift (ensure_signed origin)
    new_spend_id ← propose_spend_for caller bank_id amount dest
    post (MolochEvent.spend_proposed caller bank_id new_spend_id amount dest)

  unfoldable pub propose_member : Origin → ℕ → ℕ → ℕ → ℕ → Exec (State T.Ledger) (Unit {0})
  propose_member origin bank_id tribute shares_requested applicant = do
    caller ← lift (ensure_signed origin)
    proposal_id ← propose_member_for caller bank_id tribute shares_requested applicant
    post (MolochEvent.member_proposed caller bank_id proposal_id tribute shares_requested applicant)

  unfoldable pub spend_trigger_vote : Origin → ℕ → ℕ → Exec (State T.Ledger) (Unit {0})
  spend_trigger_vote origin bank_id spend_id = do
    caller ← lift (ensure_signed origin)
    vote_id ← trigger_vote_on_spend_proposal T caller bank_id spend_id
    post (MolochEvent.spend_vote_triggered caller bank_id spend_id vote_id)

  unfoldable pub member_trigger_vote : Origin → ℕ → ℕ → Exec (State T.Ledger) (Unit {0})
  member_trigger_vote origin bank_id proposal_id = do
    caller ← lift (ensure_signed origin)
    new_vote_id ← trigger_vote_on_member_proposal T caller bank_id proposal_id
    post (MolochEvent.member_vote_triggered caller bank_id proposal_id new_vote_id)

  unfoldable pub sudo_approve_spend_proposal : Origin → ℕ → ℕ → Exec (State T.Ledger) (Unit {0})
  sudo_approve_spend_proposal origin bank_id spend_id = do
    caller ← lift (ensure_signed origin)
    approve_spend_by_sudo T caller bank_id spend_id
    post (MolochEvent.spend_sudo_approved caller bank_id spend_id)

  unfoldable pub burn_shares : Origin → ℕ → Exec (State T.Ledger) (Unit {0})
  burn_shares origin bank_id = do
    caller ← lift (ensure_signed origin)
    burn_shares_for T caller bank_id

  unfoldable pub close_org_bank_account : Origin → ℕ → Exec (State T.Ledger) (Unit {0})
  close_org_bank_account origin bank_id = do
    closer ← lift (ensure_signed origin)
    s ← gets (λ s. s)
    bank ← ok_or (Map.get s.store.bank_stores bank_id) (fail MolochError.cannot_close_bank_that_dne)
    ensure (is_controller bank closer)
        (fail MolochError.must_be_org_supervisor_to_close_bank_account)
    let account = bank_account_id T bank_id
    let remaining_funds = total_balance s.base.ledger account
    _ ← on_base (donate T account (OrgRep.weighted bank.org) closer remaining_funds)
    on_store (λ s. record s {
      bank_stores = Map.remove s.bank_stores bank_id;
      total_bank_count = sub32 s.total_bank_count 1;
      org_bank_registrar = Map.remove s.org_bank_registrar bank.org;
    })
    post (MolochEvent.account_closed closer bank_id bank.org)

  abbrev report_spend : SpendProposal → Result SpendState → Exec (State T.Ledger) (Unit {0})
  report_spend prop (ok state) = post (MolochEvent.spend_proposal_polled prop.id.0 prop.id.1 state)
  report_spend prop (err e) = pure tt

  unfoldable pub poll_spend_entry : ℕ × ℕ × SpendProposal → Exec (State T.Ledger) (Unit {0})
  poll_spend_entry (_, _, prop) = do r ← attempt (poll_spend_proposal T prop); report_spend prop r

  abbrev report_member :
      MembershipProposal → Result ProposalState → Exec (State T.Ledger) (Unit {0})
  report_member prop (ok state) =
      post (MolochEvent.member_proposal_polled prop.id.0 prop.id.1 state)
  report_member prop (err e) = pure tt

  unfoldable pub poll_member_entry : ℕ × ℕ × MembershipProposal → Exec (State T.Ledger) (Unit {0})
  poll_member_entry (_, _, prop) = do
    r ← attempt (poll_membership_proposal T prop)
    report_member prop r

  -- The two parts of the hook. A poll writes to its own entry only, so the loops are over the entries
  -- that are there when they begin.
  unfoldable pub finalize_spends : State T.Ledger → Option (State T.Ledger)
  unfolding poll_spend_entry
  finalize_spends s =
      if s.store.spend_poll_frequency == 0
      then none
      else if s.base.block_number % s.store.spend_poll_frequency == 0
      then some (for_each poll_spend_entry s.store.spend_props s).1
      else some s

  unfoldable pub finalize_members : State T.Ledger → Option (State T.Ledger)
  unfolding poll_member_entry
  finalize_members s =
      if s.store.member_poll_frequency == 0
      then none
      else if s.base.block_number % s.store.member_poll_frequency == 0
      then some (for_each poll_member_entry s.store.member_props s).1
      else some s

  abbrev members_after : Option (State T.Ledger) → Option (State T.Ledger)
  members_after none = none
  members_after (some s) = finalize_members s

  -- `none` is the panic of a remainder by zero.
  unfoldable pub on_finalize : State T.Ledger → Option (State T.Ledger)
  on_finalize s = members_after (finalize_spends s)
