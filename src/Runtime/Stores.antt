-- ===== src/Runtime/Stores.antt =====
-- The `decl_storage!` items of the pallets.
use sunshine_node.Prelude.{ℕ, List}
use sunshine_node.Storage.Map.{Map}
use sunshine_node.Storage.DoubleMap.{DoubleMap}
use sunshine_node.Util.Organization.{Organization, OrgRep, Relation}
use sunshine_node.Util.Share.{ShareProfile}
use sunshine_node.Util.Vote.{Vote, VoteState, ThresholdConfig}
use sunshine_node.Util.Bank.{BankState, SpendProposal}
use sunshine_node.Runtime.Events.{Event}

-- pallets/org/src/lib.rs
pub record OrgStore : Type 0 where
  pub org_id_nonce : ℕ
  pub org_counter : ℕ
  pub orgs : Map Organization
  pub org_tree : DoubleMap Relation
  pub members : DoubleMap ShareProfile

-- pallets/vote/src/lib.rs
pub record VoteStore : Type 0 where
  pub vote_id_counter : ℕ
  pub threshold_id_counter : ℕ
  pub open_vote_counter : ℕ
  pub vote_states : Map VoteState
  pub vote_thresholds : Map (ThresholdConfig OrgRep)
  pub total_signal_issuance : Map ℕ
  pub vote_logger : DoubleMap Vote

-- pallets/bank/src/lib.rs
pub record BankStore : Type 0 where
  pub bank_id_nonce : ℕ
  pub spend_nonce_map : Map ℕ
  pub total_bank_count : ℕ
  pub org_treasury_count : Map ℕ
  pub banks : Map BankState
  pub spend_proposals : DoubleMap SpendProposal
  pub spend_poll_frequency : ℕ

-- `events` has the newest first; `ledger` is the state of the currency.
pub record Runtime (Ledger : Type 0) : Type 0 where
  pub block_number : ℕ
  pub ledger : Ledger
  pub org : OrgStore
  pub vote : VoteStore
  pub bank : BankStore
  pub events : List Event
