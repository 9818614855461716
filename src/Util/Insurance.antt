-- ===== src/Util/Insurance.antt =====
-- utils/src/insurance.rs: a dispute about locked funds.
use sunshine_node.Prelude.{ℕ, Bool, Option, ◌==◌}
use sunshine_node.Util.Organization.{OrgRep}
use sunshine_node.Util.Meta.{VoteMetadata}

pub data DisputeState : Type 0 where
  dispute_not_raised : DisputeState
  dispute_raised_and_vote_dispatched : ℕ → DisputeState
  dispute_raised_and_accepted : ℕ → DisputeState
  dispute_raised_and_rejected : ℕ → DisputeState

pub record Dispute : Type 0 where
  pub locker : ℕ
  pub locked_funds : ℕ
  pub dispute_raiser : ℕ
  pub resolution_metadata : VoteMetadata OrgRep
  pub state : DisputeState
  pub expiry : Option ℕ

abbrev pub can_raise_dispute : Dispute → ℕ → Bool
can_raise_dispute d who = d.dispute_raiser == who

abbrev pub set_state : Dispute → DisputeState → Dispute
set_state d state = record d { state = state }
