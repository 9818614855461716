-- ===== src/Moloch/Base.antt =====
-- The storage and the events of the moloch pallet, its identifiers and the opening of a bank.
use sunshine_node.Prelude.{
  ℕ, ◌+◌, Bool, Option, List, [], ◌∷◌, length, is_some, leb, ltb, ◌==◌, if◌then◌else◌,
}
use sunshine_node.Word.{add32, add64}
use sunshine_node.Storage.Map
use sunshine_node.Storage.Map.{Map}
use sunshine_node.Storage.DoubleMap
use sunshine_node.Storage.DoubleMap.{DoubleMap}
use sunshine_node.Storage.Fresh.{next_free}
use sunshine_node.Dispatch.{DispatchError, MolochError, Result, ok, err}
use sunshine_node.Exec.{Exec, pure, gets, ensure, ◌>>=◌, ◌>>◌}
use sunshine_node.Util.Organization.{OrgRep, org}
use sunshine_node.Util.Vote.{ThresholdInput}
use sunshine_node.Util.Bank.{BankState, SpendProposal, SpendState}
use sunshine_node.Util.Moloch.{MembershipProposal, ProposalState}
use sunshine_node.Runtime.{Runtime, Config, Pallet, on_base, on_store, on_ledger}
use sunshine_node.Bank.{or_zero}
use sunshine_node.Vote.{register_threshold}

pub data MolochEvent : Type 0 where
  account_opened : ℕ → ℕ → ℕ → ℕ → Option ℕ → MolochEvent
  spend_proposed : ℕ → ℕ → ℕ → ℕ → ℕ → MolochEvent
  member_proposed : ℕ → ℕ → ℕ → ℕ → ℕ → ℕ → MolochEvent
  spend_vote_triggered : ℕ → ℕ → ℕ → ℕ → MolochEvent
  member_vote_triggered : ℕ → ℕ → ℕ → ℕ → MolochEvent
  spend_sudo_approved : ℕ → ℕ → ℕ → MolochEvent
  spend_proposal_polled : ℕ → ℕ → SpendState → MolochEvent
  member_proposal_polled : ℕ → ℕ → ProposalState → MolochEvent
  shares_burned : ℕ → ℕ → MolochEvent
  withdrawn_portion : ℕ → ℕ → ℕ → MolochEvent
  account_closed : ℕ → ℕ → ℕ → MolochEvent

pub record MolochStore : Type 0 where
  pub bank_id_nonce : ℕ
  pub spend_nonce_map : Map ℕ
  pub proposal_nonce_map : Map ℕ
  pub total_bank_count : ℕ
  pub org_bank_registrar : Map (Unit {0})
  pub bank_stores : Map BankState
  pub spend_props : DoubleMap SpendProposal
  pub member_props : DoubleMap MembershipProposal
  pub spend_poll_frequency : ℕ
  pub member_poll_frequency : ℕ

-- The pallet works on the organizations, the votes and the currency.
abbrev pub State : Type 0 → Type 0
State L = Pallet (Runtime L) MolochStore MolochEvent

abbrev pub fail : MolochError → DispatchError
fail = DispatchError.moloch

unfoldable pub is_bank : MolochStore → ℕ → Bool
is_bank s id = is_some (Map.get s.bank_stores id)

unfoldable pub is_spend : MolochStore → ℕ → ℕ → Bool
is_spend s bank spend = is_some (DoubleMap.get s.spend_props bank spend)

unfoldable pub is_proposal : MolochStore → ℕ → ℕ → Bool
is_proposal s bank proposal = is_some (DoubleMap.get s.member_props bank proposal)

-- The identifier that `pop` takes: the last one.
abbrev last_bank : List ℕ → Result ℕ
last_bank [] = err (DispatchError.moloch MolochError.no_banks_for_org)
last_bank (bank_id ∷ []) = ok bank_id
last_bank (bank_id ∷ next ∷ ret) = last_bank (next ∷ ret)

unfoldable pub banks_of : Map BankState → ℕ → List ℕ
banks_of [] org = []
banks_of ((bank_id, bank_state) ∷ m) org =
    let rest = banks_of m org in if bank_state.org == org then bank_id ∷ rest else rest

unfoldable pub get_org_bank : MolochStore → ℕ → Result ℕ
unfolding banks_of
get_org_bank s org = last_bank (banks_of s.bank_stores org)

module _ {L : Type 0} where
  -- The loops have one round more than there are entries.
  unfoldable pub generate_bank_uid : Exec (State L) ℕ
  generate_bank_uid = do
    s ← gets (λ s. s.store)
    let bank_nonce_id = next_free (length s.bank_stores + 1) s.bank_stores (add64 s.bank_id_nonce 1)
    on_store (λ s. record s { bank_id_nonce = bank_nonce_id })
    pure bank_nonce_id

  unfoldable pub generate_spend_uid : ℕ → Exec (State L) ℕ
  generate_spend_uid seed = do
    s ← gets (λ s. s.store)
    let spends = DoubleMap.iter_prefix s.spend_props seed
    let id_nonce =
        next_free (length spends + 1) spends (add64 (or_zero (Map.get s.spend_nonce_map seed)) 1)
    on_store (λ s. record s { spend_nonce_map = Map.insert s.spend_nonce_map seed id_nonce })
    pure id_nonce

  unfoldable pub generate_proposal_uid : ℕ → Exec (State L) ℕ
  generate_proposal_uid seed = do
    s ← gets (λ s. s.store)
    let proposals = DoubleMap.iter_prefix s.member_props seed
    let id_nonce =
        next_free (length proposals + 1) proposals
          (add64 (or_zero (Map.get s.proposal_nonce_map seed)) 1)
    on_store (λ s. record s { proposal_nonce_map = Map.insert s.proposal_nonce_map seed id_nonce })
    pure id_nonce

module _ (T : Config) where
  open T use {free_balance, total_balance, transfer, into_sub_account, min_deposit}

  abbrev pub bank_account_id : ℕ → ℕ
  bank_account_id id = into_sub_account id

  unfoldable pub bank_balance : State T.Ledger → ℕ → ℕ
  bank_balance s bank = total_balance s.base.ledger (bank_account_id bank)

  -- `transfer` from one account to another, with `KeepAlive`.
  abbrev pub pay : ℕ → ℕ → ℕ → Exec (State T.Ledger) (Unit {0})
  pay from to amount = on_base (on_ledger (transfer from to amount))

  unfoldable pub open_bank_account :
      ℕ → ℕ → ℕ → Option ℕ → ThresholdInput OrgRep → Exec (State T.Ledger) ℕ
  unfolding generate_bank_uid
  open_bank_account opener org_id deposit controller threshold = do
    ensure (leb min_deposit deposit)
        (fail MolochError.cannot_open_bank_account_if_deposit_is_below_module_minimum)
    s ← gets (λ s. s)
    ensure (ltb deposit (free_balance s.base.ledger opener))
        (fail MolochError.insufficient_balance_to_fund_bank_open)
    ensure (org threshold.org == org_id) (fail MolochError.threshold_cannot_be_set_for_org)
    threshold_id ← on_base (register_threshold threshold)
    id ← generate_bank_uid
    pay opener (bank_account_id id) deposit
    let new_bank : BankState = record {
      id = id;
      org = org_id;
      controller = controller;
      threshold_id = threshold_id;
    }
    on_store (λ s. record s {
      bank_stores = Map.insert s.bank_stores id new_bank;
      total_bank_count = add32 s.total_bank_count 1;
    })
    pure id
