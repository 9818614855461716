-- ===== src/Grant/Finalize.antt =====
-- The hook of the grant pallet at the end of a block, which polls what is under review.
use sunshine_node.Prelude.{ℕ, ◌%◌, Option, none, some, ◌==◌, if◌then◌else◌}
use sunshine_node.Storage.Map
use sunshine_node.Storage.DoubleMap
use sunshine_node.Dispatch.{Result, ok}
use sunshine_node.Exec.{Exec, pure, attempt, for_each, ◌>>=◌, ◌>>◌}
use sunshine_node.Util.Vote.{VoteOutcome}
use sunshine_node.Util.Grant.{
  ApplicationState, GrantApplication, MilestoneSubmission, set_application, reviewed_by,
  milestone_reviewed_by,
}
use sunshine_node.Runtime.{Config, on_base, on_store, post}
use sunshine_node.Vote
use sunshine_node.Grant.Base.{GrantEvent, State, GrantTrait, approve_milestone_and_try_transfer}
use sunshine_node.Grant.Milestones.{put_milestone}

module _ {L : Type 0} where
  abbrev settle_application : Result VoteOutcome → ℕ → GrantApplication → Exec (State L) (Unit {0})
  settle_application (ok VoteOutcome.approved) id app = do
    let new_app = set_application app ApplicationState.approved_and_live
    on_store (λ s. record s { applications = Map.insert s.applications id new_app })
    post (GrantEvent.application_approved app.foundation_id id app.submission_ref)
  settle_application (ok VoteOutcome.rejected) id app = do
    on_store (λ s. record s { applications = Map.remove s.applications id })
    post (GrantEvent.application_rejected app.foundation_id id)
  settle_application _ id app = pure tt

  abbrev poll_review : Option ℕ → ℕ → GrantApplication → Exec (State L) (Unit {0})
  poll_review none id app = pure tt
  poll_review (some vid) id app = do
    status ← attempt (on_base (Vote.get_vote_outcome vid))
    settle_application status id app

  unfoldable pub poll_application : ℕ × GrantApplication → Exec (State L) (Unit {0})
  poll_application (id, app) = poll_review (reviewed_by app.state) id app

module _ (T : Config) (K : GrantTrait) where
  abbrev settle_milestone :
      Result VoteOutcome → ℕ → ℕ → MilestoneSubmission → Exec (State T.Ledger) (Unit {0})
  settle_milestone (ok VoteOutcome.approved) aid mid mile = do
    new_mile ← approve_milestone_and_try_transfer T K mile
    put_milestone aid mid new_mile
    post (GrantEvent.milestone_approved mile.base.0 aid mid mile.submission)
  settle_milestone (ok VoteOutcome.rejected) aid mid mile = do
    on_store (λ s. record s { milestones = DoubleMap.remove s.milestones aid mid })
    post (GrantEvent.milestone_rejected mile.base.0 aid mid)
  settle_milestone _ aid mid mile = pure tt

  abbrev poll_milestone_review :
      Option ℕ → ℕ → ℕ → MilestoneSubmission → Exec (State T.Ledger) (Unit {0})
  poll_milestone_review none aid mid mile = pure tt
  poll_milestone_review (some vid) aid mid mile = do
    status ← attempt (on_base (Vote.get_vote_outcome vid))
    settle_milestone status aid mid mile

  unfoldable pub poll_milestone : ℕ × ℕ × MilestoneSubmission → Exec (State T.Ledger) (Unit {0})
  unfolding approve_milestone_and_try_transfer
  poll_milestone (aid, mid, mile) =
      poll_milestone_review (milestone_reviewed_by mile.state) aid mid mile

  -- The two parts of the hook. A poll writes to its own entry only, so the loops are over the entries
  -- that are there when they begin; of those, a poll passes by what is not under review.
  unfoldable pub finalize_applications : State T.Ledger → Option (State T.Ledger)
  unfolding poll_application
  finalize_applications s =
      if s.base.block_number == 0
      then none
      else if s.store.application_poll_frequency % s.base.block_number == 0
      then some (for_each poll_application s.store.applications s).1
      else some s

  unfoldable pub finalize_milestones : State T.Ledger → Option (State T.Ledger)
  unfolding poll_milestone
  finalize_milestones s =
      if s.base.block_number == 0
      then none
      else if s.store.milestone_poll_frequency % s.base.block_number == 0
      then some (for_each poll_milestone s.store.milestones s).1
      else some s

  abbrev milestones_after : Option (State T.Ledger) → Option (State T.Ledger)
  milestones_after none = none
  milestones_after (some s) = finalize_milestones s

  -- `none` is the panic of a remainder by zero.
  unfoldable pub on_finalize : State T.Ledger → Option (State T.Ledger)
  on_finalize s = milestones_after (finalize_applications s)
