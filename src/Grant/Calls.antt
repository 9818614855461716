-- ===== src/Grant/Calls.antt =====
-- The dispatchable calls of the grant pallet on foundations and on applications.
use sunshine_node.Prelude.{ℕ, Bool, false, not, ◌||◌, Option, none, some, leb}
use sunshine_node.Word.{add128}
use sunshine_node.Storage.Map
use sunshine_node.Storage.DoubleMap
use sunshine_node.Dispatch.{GrantError}
use sunshine_node.Exec.{Exec, gets, lift, ok_or, ensure, modify, ◌>>=◌, ◌>>◌}
use sunshine_node.Util.Organization.{OrgRep, org}
use sunshine_node.Util.Meta.{VoteMetadata, ResolutionMetadata, org_of, is_sudo}
use sunshine_node.Util.Grant.{
  Foundation, Recipient, ApplicationState, add_funds, new_application, set_application,
  awaiting_review,
}
use sunshine_node.Runtime.{Config, OrgStore, on_base, on_store, on_ledger, post}
use sunshine_node.Org
use sunshine_node.Vote
use sunshine_node.Grant.Base.{
  GrantEvent, State, GrantTrait, fail, foundation_id_is_available, foundation_generate_uid,
  application_generate_uid,
}

-- Who may start a review: a member of the organization that votes, or the supervisor, and only where
-- there is a vote.
abbrev pub may_trigger :
    OrgStore → Option (VoteMetadata OrgRep) → ResolutionMetadata (VoteMetadata OrgRep) → ℕ → Bool
may_trigger s none gov trigger_er = false
may_trigger s (some vote) gov trigger_er =
    Org.is_member_of_group s (org (org_of vote)) trigger_er || is_sudo gov trigger_er

abbrev added : Option ℕ → ℕ → ℕ
added none amount = amount
added (some a) amount = add128 a amount

module _ (T : Config) where
  abbrev pub open_by : VoteMetadata OrgRep → ℕ → Exec (State T.Ledger) ℕ
  open_by (VoteMetadata.signal v) topic =
      on_base (Vote.open_vote T (some topic) v.org v.threshold v.duration)
  open_by (VoteMetadata.percentage v) topic =
      on_base (Vote.open_percent_vote T (some topic) v.org v.threshold v.duration)

module _ (T : Config) (K : GrantTrait) where
  open T use {Origin, ensure_signed, transfer, withdraw, resolve_creating}
  open K use {foundation_account_id, min_deposit, min_contribution}

  unfoldable pub create_foundation :
      Origin → ℕ → ℕ → ResolutionMetadata (VoteMetadata OrgRep) → Exec (State T.Ledger) (Unit {0})
  unfolding foundation_generate_uid
  create_foundation origin info amount governance = do
    depositer ← lift (ensure_signed origin)
    ensure (leb min_deposit amount) (fail GrantError.deposit_below_min_deposit)
    on_base (on_ledger (withdraw depositer amount))
    let foundation : Foundation = record { info = info; funds = amount; gov = governance }
    id ← foundation_generate_uid
    on_base (on_ledger (modify (resolve_creating (foundation_account_id id) amount)))
    on_store (λ s. record s {
      foundations = Map.insert s.foundations id foundation;
      foundation_donations = DoubleMap.insert s.foundation_donations id depositer amount;
    })
    post (GrantEvent.foundation_created id amount info)

  unfoldable pub donate_to_foundation : Origin → ℕ → ℕ → Exec (State T.Ledger) (Unit {0})
  donate_to_foundation origin id amount = do
    giver ← lift (ensure_signed origin)
    ensure (leb min_contribution amount) (fail GrantError.contribution_below_min_contribution)
    s ← gets (λ s. s.store)
    foundation ← ok_or (Map.get s.foundations id) (fail GrantError.foundation_dne)
    on_base (on_ledger (transfer giver (foundation_account_id id) amount))
    let new_amount = added (DoubleMap.get s.foundation_donations id giver) amount
    let new_foundation = add_funds foundation amount
    on_store (λ s. record s {
      foundations = Map.insert s.foundations id new_foundation;
      foundation_donations = DoubleMap.insert s.foundation_donations id giver new_amount;
    })
    post (GrantEvent.foundation_donation giver new_amount id new_foundation.funds)

  unfoldable pub submit_application :
      Origin → ℕ → ℕ → Recipient → ℕ → Exec (State T.Ledger) (Unit {0})
  unfolding application_generate_uid foundation_id_is_available
  submit_application origin foundation_id submission_ref recipient amount_requested = do
    _ ← lift (ensure_signed origin)
    s ← gets (λ s. s.store)
    ensure (not (foundation_id_is_available s foundation_id)) (fail GrantError.foundation_dne)
    let app = new_application foundation_id submission_ref recipient amount_requested
    id ← application_generate_uid
    on_store (λ s. record s { applications = Map.insert s.applications id app })
    post (
        GrantEvent.application_submitted foundation_id id recipient amount_requested submission_ref)

  unfoldable pub trigger_application_review : Origin → ℕ → Exec (State T.Ledger) (Unit {0})
  trigger_application_review origin application_id = do
    trigger_er ← lift (ensure_signed origin)
    s ← gets (λ s. s)
    app ← ok_or (Map.get s.store.applications application_id) (fail GrantError.application_dne)
    ensure (awaiting_review app.state)
        (fail GrantError.application_not_in_valid_state_to_trigger_review)
    foundation ←
        ok_or (Map.get s.store.foundations app.foundation_id) (fail GrantError.foundation_dne)
    ensure (may_trigger s.base.org foundation.gov.vote foundation.gov trigger_er)
        (fail GrantError.not_authorized_to_trigger_application_review)
    vote ← ok_or foundation.gov.vote (fail GrantError.not_authorized_to_trigger_application_review)
    new_vote_id ← open_by T vote app.submission_ref
    let new_app =
        set_application app (ApplicationState.under_review_by_acceptance_committee new_vote_id)
    on_store (λ s. record s { applications = Map.insert s.applications application_id new_app })
    post (GrantEvent.application_review_triggered app.foundation_id application_id new_vote_id)

  unfoldable pub approve_application : Origin → ℕ → Exec (State T.Ledger) (Unit {0})
  approve_application origin application_id = do
    purported_sudo ← lift (ensure_signed origin)
    s ← gets (λ s. s.store)
    app ← ok_or (Map.get s.applications application_id) (fail GrantError.application_dne)
    ensure (awaiting_review app.state) (fail GrantError.application_not_in_valid_state_to_approve)
    foundation ← ok_or (Map.get s.foundations app.foundation_id) (fail GrantError.foundation_dne)
    ensure (is_sudo foundation.gov purported_sudo)
        (fail GrantError.not_authorized_to_approve_application)
    let new_app = set_application app ApplicationState.approved_and_live
    on_store (λ s. record s { applications = Map.insert s.applications application_id new_app })
    post (GrantEvent.application_approved app.foundation_id application_id app.submission_ref)

  unfoldable pub reject_application : Origin → ℕ → Exec (State T.Ledger) (Unit {0})
  reject_application origin application_id = do
    purported_sudo ← lift (ensure_signed origin)
    s ← gets (λ s. s.store)
    app ← ok_or (Map.get s.applications application_id) (fail GrantError.application_dne)
    ensure (awaiting_review app.state) (fail GrantError.application_not_in_valid_state_to_reject)
    foundation ← ok_or (Map.get s.foundations app.foundation_id) (fail GrantError.foundation_dne)
    ensure (is_sudo foundation.gov purported_sudo)
        (fail GrantError.not_authorized_to_reject_application)
    on_store (λ s. record s { applications = Map.remove s.applications application_id })
    post (GrantEvent.application_rejected app.foundation_id application_id)
