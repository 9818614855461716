-- ===== src/Grant/Reach.antt =====
-- The calls of the grant pallet and its hook as a step relation, and the milestones of every
-- reachable state.
use sunshine_node.Prelude.{ℕ, ◌≡◌, refl, sym, subst, true, Option, some, none, [], arith}
use sunshine_node.Storage.Map
use sunshine_node.Storage.DoubleMap
use sunshine_node.Util.Organization.{OrgRep}
use sunshine_node.Util.Meta.{VoteMetadata, ResolutionMetadata}
use sunshine_node.Util.Grant.{
  GrantApplication, ApplicationState, MilestoneSubmission, Recipient, is_live,
}
use sunshine_node.Runtime.{Config, Runtime}
use sunshine_node.Grant.Base.{State, GrantStore, GrantTrait}
use sunshine_node.Grant.Calls.{
  create_foundation, donate_to_foundation, submit_application, trigger_application_review,
  approve_application, reject_application,
}
use sunshine_node.Grant.Milestones.{
  submit_milestone, trigger_milestone_review, approve_milestone, reject_milestone,
}
use sunshine_node.Grant.Finalize.{on_finalize}
use sunshine_node.Grant.Awards.{IsAwarding, is_awarded}
use sunshine_node.Grant.Applied.{
  HasRoom, create-IsAwarding, donate-IsAwarding, submit-IsAwarding, trigger-IsAwarding,
  approve-IsAwarding, reject-IsAwarding,
}
use sunshine_node.Grant.Delivered.{
  submit_milestone-IsAwarding, trigger_milestone-IsAwarding, approve_milestone-IsAwarding,
  reject_milestone-IsAwarding,
}
use sunshine_node.Grant.Polled.{finalize-IsAwarding}

-- What can happen to the pallet: its calls, in any order and by anybody, as long as identifiers for
-- applications are left, its hook, and between them whatever the other pallets do.
pub data Step (T : Config) (K : GrantTrait) (s : State T.Ledger) : State T.Ledger → Type 0 where
  create :
      (origin : T.Origin) (info amount : ℕ) (gov : ResolutionMetadata (VoteMetadata OrgRep))
      → Step T K s (create_foundation T K origin info amount gov s).1
  donate :
      (origin : T.Origin) (id amount : ℕ)
      → Step T K s (donate_to_foundation T K origin id amount s).1
  submit :
      (origin : T.Origin) (foundation ref : ℕ) (r : Recipient) (amount : ℕ)
      → HasRoom s.store
      → Step T K s (submit_application T K origin foundation ref r amount s).1
  trigger : (origin : T.Origin) (id : ℕ) → Step T K s (trigger_application_review T K origin id s).1
  approve : (origin : T.Origin) (id : ℕ) → Step T K s (approve_application T K origin id s).1
  reject : (origin : T.Origin) (id : ℕ) → Step T K s (reject_application T K origin id s).1
  deliver :
      (origin : T.Origin) (foundation aid ref : ℕ) (r : Recipient) (amount : ℕ)
      → Step T K s (submit_milestone T K origin foundation aid ref r amount s).1
  review :
      (origin : T.Origin) (aid mid : ℕ)
      → Step T K s (trigger_milestone_review T K origin aid mid s).1
  accept : (origin : T.Origin) (aid mid : ℕ) → Step T K s (approve_milestone T K origin aid mid s).1
  refuse : (origin : T.Origin) (aid mid : ℕ) → Step T K s (reject_milestone T K origin aid mid s).1
  finalize : (t : State T.Ledger) → on_finalize T K s ≡ some t → Step T K s t
  elsewhere : (base : Runtime T.Ledger) → Step T K s (record s { base = base })

pub data Reachable (T : Config) (K : GrantTrait) : State T.Ledger → Type 0 where
  begin :
      (s : State T.Ledger) → s.store.applications ≡ [] → s.store.milestones ≡ [] → Reachable T K s
  next : {s t : State T.Ledger} → Reachable T K s → Step T K s t → Reachable T K t

abbrev without :
    Map.Map GrantApplication → DoubleMap.DoubleMap MilestoneSubmission → GrantStore → GrantStore
without apps milestones s = record s { applications = apps; milestones = milestones }

empty-IsAwarding : (s : GrantStore) → IsAwarding (without [] [] s)
unfolding DoubleMap.get
empty-IsAwarding s = record { once = tt; awarded = λ aid mid m h. ground (arith, h) }

live_award :
    (o : Option GrantApplication)
    → is_awarded o ≡ true
    → (app : GrantApplication) × (o ≡ some app) × (app.state ≡ ApplicationState.approved_and_live)
live_award none h = ground (arith, h)
live_award (some app) h = (app, refl, live app.state h)
  where
    live :
        (state : ApplicationState)
        → is_live state ≡ true
        → state ≡ ApplicationState.approved_and_live
    live ApplicationState.approved_and_live h = refl
    live ApplicationState.submitted_awaiting_response h = ground (arith, h)
    live (ApplicationState.under_review_by_acceptance_committee v) h = ground (arith, h)
    live ApplicationState.closed h = ground (arith, h)

module _ (T : Config) (K : GrantTrait) where
  Step-IsAwarding : {s t : State T.Ledger} → Step T K s t → IsAwarding s.store → IsAwarding t.store
  Step-IsAwarding {s} (create origin info amount gov) is =
      create-IsAwarding T K s is origin info amount gov
  Step-IsAwarding {s} (donate origin id amount) is = donate-IsAwarding T K s is origin id amount
  Step-IsAwarding {s} (submit origin foundation ref r amount room) is =
      submit-IsAwarding T K s is origin foundation ref r amount room
  Step-IsAwarding {s} (trigger origin id) is = trigger-IsAwarding T K s is origin id
  Step-IsAwarding {s} (approve origin id) is = approve-IsAwarding T K s is origin id
  Step-IsAwarding {s} (reject origin id) is = reject-IsAwarding T K s is origin id
  Step-IsAwarding {s} (deliver origin foundation aid ref r amount) is =
      submit_milestone-IsAwarding T K s is origin foundation aid ref r amount
  Step-IsAwarding {s} (review origin aid mid) is =
      trigger_milestone-IsAwarding T K s is origin aid mid
  Step-IsAwarding {s} (accept origin aid mid) is =
      approve_milestone-IsAwarding T K s is origin aid mid
  Step-IsAwarding {s} (refuse origin aid mid) is =
      reject_milestone-IsAwarding T K s is origin aid mid
  Step-IsAwarding {s} (finalize t h) is = finalize-IsAwarding T K s t is h
  Step-IsAwarding {s} (elsewhere base) is = is

  Reachable-IsAwarding : {s : State T.Ledger} → Reachable T K s → IsAwarding s.store
  Reachable-IsAwarding (begin s no_application no_milestone) =
      subst (λ apps. IsAwarding (without apps s.store.milestones s.store)) (sym no_application)
        (subst (λ milestones. IsAwarding (without [] milestones s.store)) (sym no_milestone)
          (empty-IsAwarding s.store))
  Reachable-IsAwarding (next r st) = Step-IsAwarding st (Reachable-IsAwarding r)

  -- In every state that the calls and the hook of the pallet lead to from one without applications,
  -- in any order and by anybody, a milestone stands under an application that is there and was
  -- approved. It is about applications that find an identifier that is left.
  pub Reachable-awarded :
      {s : State T.Ledger}
      → Reachable T K s
      → (aid mid : ℕ) (m : MilestoneSubmission) → DoubleMap.get s.store.milestones aid mid ≡ some m
      → (app : GrantApplication) × (Map.get s.store.applications aid ≡ some app)
        × (app.state ≡ ApplicationState.approved_and_live)
  Reachable-awarded {s} r aid mid m h =
      live_award (Map.get s.store.applications aid) ((Reachable-IsAwarding r).awarded aid mid m h)
