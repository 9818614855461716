-- ===== src/Runtime/Events.antt =====
-- The `decl_event!` enumerations of the pallets.
use sunshine_node.Prelude.{ℕ, Option}
use sunshine_node.Util.Vote.{VoterView}
use sunshine_node.Util.Bank.{SpendState}

-- pallets/org/src/lib.rs
pub data OrgEvent : Type 0 where
  new_flat_org : ℕ → ℕ → ℕ → ℕ → OrgEvent
  new_weighted_org : ℕ → ℕ → ℕ → ℕ → OrgEvent
  added_org_member : ℕ → ℕ → ℕ → OrgEvent
  removed_org_member : ℕ → ℕ → ℕ → OrgEvent
  shares_locked : ℕ → ℕ → OrgEvent
  shares_unlocked : ℕ → ℕ → OrgEvent
  shares_issued : ℕ → ℕ → ℕ → OrgEvent
  shares_burned : ℕ → ℕ → ℕ → OrgEvent
  shares_batch_issued : ℕ → ℕ → ℕ → OrgEvent
  shares_batch_burned : ℕ → ℕ → OrgEvent
  org_removed : ℕ → OrgEvent

-- pallets/vote/src/lib.rs
pub data VoteEvent : Type 0 where
  threshold_set : ℕ → VoteEvent
  new_vote_started : ℕ → ℕ → VoteEvent
  voted : ℕ → ℕ → VoterView → VoteEvent

-- pallets/donate/src/lib.rs
pub data DonateEvent : Type 0 where
  prop_donation_executed : ℕ → ℕ → ℕ → ℕ → ℕ → DonateEvent
  equal_donation_executed : ℕ → ℕ → ℕ → ℕ → ℕ → DonateEvent

-- pallets/bank/src/lib.rs
pub data BankEvent : Type 0 where
  account_opened : ℕ → ℕ → ℕ → ℕ → Option ℕ → BankEvent
  spend_proposed : ℕ → ℕ → ℕ → ℕ → ℕ → BankEvent
  vote_triggered : ℕ → ℕ → ℕ → ℕ → BankEvent
  sudo_approved : ℕ → ℕ → ℕ → BankEvent
  proposal_polled : ℕ → ℕ → SpendState → BankEvent
  account_closed : ℕ → ℕ → ℕ → BankEvent

pub data Event : Type 0 where
  org : OrgEvent → Event
  vote : VoteEvent → Event
  donate : DonateEvent → Event
  bank : BankEvent → Event
