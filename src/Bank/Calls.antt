-- ===== src/Bank/Calls.antt =====
-- The dispatchable calls of the bank pallet, and its hook at the end of a block.
use sunshine_node.Prelude.{ℕ, ◌%◌, Option, none, some, ◌==◌, if◌then◌else◌}
use sunshine_node.Word.{sub32}
use sunshine_node.Storage.Map
use sunshine_node.Dispatch.{DispatchError, BankError, Result, ok, err}
use sunshine_node.Exec.{pure, gets, lift, ok_or, attempt, ensure, for_each, ◌>>=◌, ◌>>◌}
use sunshine_node.Util.Organization.{OrgRep}
use sunshine_node.Util.Vote.{ThresholdInput}
use sunshine_node.Util.Bank.{SpendProposal, SpendState, is_controller}
use sunshine_node.Runtime.{Runtime, Config, Call, deposit_event, Event, BankEvent}
use sunshine_node.Org
use sunshine_node.Donate.{donate}
use sunshine_node.Bank.Base.{open_bank_account, on_bank, or_zero, bank_account_id}
use sunshine_node.Bank.Spend.{
  propose_spend_for, trigger_vote_on_spend_proposal, sudo_approve_spend_proposal,
  poll_spend_proposal,
}

module _ (T : Config) where
  open T use {Origin, ensure_signed, total_balance}

  unfoldable pub open_account :
      Origin → ℕ → ℕ → Option ℕ → ThresholdInput OrgRep → Call T (Unit {0})
  open_account origin org deposit controller threshold = do
    opener ← lift (ensure_signed origin)
    s ← gets (λ s. s.org)
    ensure (Org.is_member_of_group s org opener)
        (DispatchError.bank BankError.not_permitted_to_open_bank_account_for_org)
    bank_id ← open_bank_account T opener org deposit controller threshold
    deposit_event (Event.bank (BankEvent.account_opened opener bank_id deposit org controller))

  unfoldable pub propose_spend : Origin → ℕ → ℕ → ℕ → Call T (Unit {0})
  propose_spend origin bank_id amount dest = do
    caller ← lift (ensure_signed origin)
    new_spend_id ← propose_spend_for caller bank_id amount dest
    deposit_event (Event.bank (BankEvent.spend_proposed caller bank_id new_spend_id amount dest))

  unfoldable pub trigger_vote : Origin → ℕ → ℕ → Call T (Unit {0})
  trigger_vote origin bank_id spend_id = do
    caller ← lift (ensure_signed origin)
    vote_id ← trigger_vote_on_spend_proposal T caller bank_id spend_id
    deposit_event (Event.bank (BankEvent.vote_triggered caller bank_id spend_id vote_id))

  unfoldable pub sudo_approve : Origin → ℕ → ℕ → Call T (Unit {0})
  sudo_approve origin bank_id spend_id = do
    caller ← lift (ensure_signed origin)
    sudo_approve_spend_proposal T caller bank_id spend_id
    deposit_event (Event.bank (BankEvent.sudo_approved caller bank_id spend_id))

  unfoldable pub close : Origin → ℕ → Call T (Unit {0})
  close origin bank_id = do
    closer ← lift (ensure_signed origin)
    s ← gets (λ s. s)
    bank ←
        ok_or (Map.get s.bank.banks bank_id)
          (DispatchError.bank BankError.cannot_close_bank_that_dne)
    ensure (is_controller bank closer) (DispatchError.bank BankError.only_controller_can_close_bank)
    let account = bank_account_id T bank_id
    let remaining_funds = total_balance s.ledger account
    _ ← donate T account (OrgRep.weighted bank.org) closer remaining_funds
    on_bank (λ s. record s { banks = Map.remove s.banks bank_id })
    on_bank (λ s. record s {
      org_treasury_count =
          Map.insert s.org_treasury_count bank.org
            (sub32 (or_zero (Map.get s.org_treasury_count bank.org)) 1);
    })
    on_bank (λ s. record s { total_bank_count = sub32 s.total_bank_count 1 })
    deposit_event (Event.bank (BankEvent.account_closed closer bank_id bank.org))

  abbrev report_poll : SpendProposal → Result SpendState → Call T (Unit {0})
  report_poll prop (ok state) =
      deposit_event (Event.bank (BankEvent.proposal_polled prop.id.0 prop.id.1 state))
  report_poll prop (err e) = pure tt

  unfoldable pub poll_entry : ℕ × ℕ × SpendProposal → Call T (Unit {0})
  poll_entry (_, _, prop) = do r ← attempt (poll_spend_proposal T prop); report_poll prop r

  -- `none` is the panic of a remainder by zero. A poll writes to its own entry only, so the loop is
  -- over the entries that are there when it begins.
  unfoldable pub on_finalize : Runtime T.Ledger → Option (Runtime T.Ledger)
  unfolding poll_entry
  on_finalize s =
      if s.bank.spend_poll_frequency == 0
      then none
      else if s.block_number % s.bank.spend_poll_frequency == 0
      then some (for_each poll_entry s.bank.spend_proposals s).1
      else some s
