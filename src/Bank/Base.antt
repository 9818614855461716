-- ===== src/Bank/Base.antt =====
-- Identifiers, queries and the opening of accounts in the bank pallet.
use sunshine_node.Prelude.{
  ℕ, ◌+◌, Bool, Option, none, some, List, [], ◌∷◌, length, is_some, leb, ltb, ◌==◌, if◌then◌else◌,
}
use sunshine_node.Word.{add32, add64}
use sunshine_node.Storage.Map
use sunshine_node.Storage.Map.{Map}
use sunshine_node.Storage.DoubleMap
use sunshine_node.Storage.Fresh.{next_free}
use sunshine_node.Dispatch.{DispatchError, BankError}
use sunshine_node.Exec.{Exec, pure, gets, modify, ensure, ◌>>=◌, ◌>>◌}
use sunshine_node.Dispatch.{Result, ok, err}
use sunshine_node.Util.Organization.{OrgRep, org}
use sunshine_node.Util.Vote.{ThresholdInput}
use sunshine_node.Util.Bank.{BankState}
use sunshine_node.Runtime.{BankStore, Runtime, Config, Call, on_ledger}
use sunshine_node.Vote.{register_threshold}

-- The value of a map whose missing keys read as zero.
abbrev pub or_zero : Option ℕ → ℕ
or_zero none = 0
or_zero (some n) = n

unfoldable pub is_bank : BankStore → ℕ → Bool
is_bank s id = is_some (Map.get s.banks id)

unfoldable pub is_spend : BankStore → ℕ → ℕ → Bool
is_spend s bank spend = is_some (DoubleMap.get s.spend_proposals bank spend)

unfoldable pub banks_of : Map BankState → ℕ → List ℕ
banks_of [] org = []
banks_of ((bank_id, bank_state) ∷ m) org =
    let rest = banks_of m org in if bank_state.org == org then bank_id ∷ rest else rest

abbrev or_no_banks : List ℕ → Result (List ℕ)
or_no_banks [] = err (DispatchError.bank BankError.no_banks_for_org)
or_no_banks (bank_id ∷ ret_vec) = ok (bank_id ∷ ret_vec)

unfoldable pub get_banks_for_org : BankStore → ℕ → Result (List ℕ)
unfolding banks_of
get_banks_for_org s org = or_no_banks (banks_of s.banks org)

module _ {L : Type 0} where
  abbrev pub on_bank : (BankStore → BankStore) → Exec (Runtime L) (Unit {0})
  on_bank f = modify (λ s. record s { bank = f s.bank })

  -- The loops have one round more than there are entries.
  unfoldable pub generate_bank_uid : Exec (Runtime L) ℕ
  generate_bank_uid = do
    s ← gets (λ s. s.bank)
    let bank_nonce_id = next_free (length s.banks + 1) s.banks (add64 s.bank_id_nonce 1)
    on_bank (λ s. record s { bank_id_nonce = bank_nonce_id })
    pure bank_nonce_id

  unfoldable pub generate_spend_uid : ℕ → Exec (Runtime L) ℕ
  generate_spend_uid seed = do
    s ← gets (λ s. s.bank)
    let spends = DoubleMap.iter_prefix s.spend_proposals seed
    let id_nonce =
        next_free (length spends + 1) spends (add64 (or_zero (Map.get s.spend_nonce_map seed)) 1)
    on_bank (λ s. record s { spend_nonce_map = Map.insert s.spend_nonce_map seed id_nonce })
    pure id_nonce

module _ (T : Config) where
  open T use {
    free_balance, total_balance, transfer, into_sub_account, max_treasury_per_org, min_deposit,
  }

  abbrev pub bank_account_id : ℕ → ℕ
  bank_account_id id = into_sub_account id

  unfoldable pub bank_balance : Runtime T.Ledger → ℕ → ℕ
  bank_balance s bank = total_balance s.ledger (bank_account_id bank)

  unfoldable pub open_bank_account : ℕ → ℕ → ℕ → Option ℕ → ThresholdInput OrgRep → Call T ℕ
  unfolding generate_bank_uid
  open_bank_account opener org_id deposit controller threshold = do
    ensure (leb min_deposit deposit)
        (DispatchError.bank BankError.cannot_open_bank_account_if_deposit_is_below_module_minimum)
    s ← gets (λ s. s)
    ensure (ltb deposit (free_balance s.ledger opener))
        (DispatchError.bank BankError.insufficient_balance_to_fund_bank_open)
    let new_count = add32 (or_zero (Map.get s.bank.org_treasury_count org_id)) 1
    ensure (leb new_count max_treasury_per_org)
        (DispatchError.bank BankError.committee_count_exceeds_limit_per_org)
    ensure (org threshold.org == org_id)
        (DispatchError.bank BankError.threshold_cannot_be_set_for_org)
    threshold_id ← register_threshold threshold
    id ← generate_bank_uid
    let bank : BankState = record {
      id = id;
      org = org_id;
      controller = controller;
      threshold_id = threshold_id;
    }
    on_ledger (transfer opener (bank_account_id id) deposit)
    on_bank (λ s. record s { banks = Map.insert s.banks id bank })
    on_bank
        (λ s. record s { org_treasury_count = Map.insert s.org_treasury_count org_id new_count })
    on_bank (λ s. record s { total_bank_count = add32 s.total_bank_count 1 })
    pure id
