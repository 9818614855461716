-- ===== src/Util/Bank.antt =====
-- utils/src/bank.rs: bank accounts and spend proposals.
use sunshine_node.Prelude.{ℕ, Bool, false, Option, none, some, ◌==◌}

pub record BankState : Type 0 where
  pub id : ℕ
  pub org : ℕ
  pub controller : Option ℕ
  pub threshold_id : ℕ

abbrev pub is_org : BankState → ℕ → Bool
is_org b org = org == b.org

abbrev controller_is : Option ℕ → ℕ → Bool
controller_is none purported_sudo = false
controller_is (some op) purported_sudo = op == purported_sudo

abbrev pub is_controller : BankState → ℕ → Bool
is_controller b purported_sudo = controller_is b.controller purported_sudo

pub data SpendState : Type 0 where
  waiting_for_approval : SpendState
  voting : ℕ → SpendState
  approved_but_not_executed : SpendState
  approved_and_executed : SpendState

pub record SpendProposal : Type 0 where
  pub id : ℕ × ℕ
  pub amount : ℕ
  pub dest : ℕ
  pub state : SpendState

abbrev pub new : ℕ → ℕ → ℕ → ℕ → SpendProposal
new bank_id spend_id amount dest = record {
  id = (bank_id, spend_id);
  amount = amount;
  dest = dest;
  state = SpendState.waiting_for_approval;
}

abbrev pub set_state : SpendProposal → SpendState → SpendProposal
set_state p state = record p { state = state }
