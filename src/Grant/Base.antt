-- ===== src/Grant/Base.antt =====
-- The storage, the events and the identifiers of the grant pallet, and the payment of a milestone.
use sunshine_node.Prelude.{
  ℕ, ◌+◌, Bool, is_none, Option, none, some, [], ◌∷◌, length, ◌==◌, if◌then◌else◌,
}
use sunshine_node.Word.{add64}
use sunshine_node.Storage.Map
use sunshine_node.Storage.Map.{Map}
use sunshine_node.Storage.DoubleMap
use sunshine_node.Storage.DoubleMap.{DoubleMap}
use sunshine_node.Storage.Fresh.{next_free}
use sunshine_node.Dispatch.{DispatchError, GrantError, Result, ok, err}
use sunshine_node.Exec.{Exec, pure, gets, attempt, ◌>>=◌, ◌>>◌}
use sunshine_node.Util.Organization.{OrgRep}
use sunshine_node.Util.Grant.{
  Foundation, Recipient, GrantApplication, MilestoneSubmission, MilestoneStatus, set_milestone,
}
use sunshine_node.Runtime.{Runtime, Config, Pallet, on_base, on_store, on_ledger}
use sunshine_node.Bank.{or_zero}
use sunshine_node.Donate.{donate}

pub data GrantEvent : Type 0 where
  foundation_created : ℕ → ℕ → ℕ → GrantEvent
  foundation_donation : ℕ → ℕ → ℕ → ℕ → GrantEvent
  application_submitted : ℕ → ℕ → Recipient → ℕ → ℕ → GrantEvent
  application_review_triggered : ℕ → ℕ → ℕ → GrantEvent
  application_approved : ℕ → ℕ → ℕ → GrantEvent
  application_rejected : ℕ → ℕ → GrantEvent
  milestone_submitted : ℕ → ℕ → ℕ → Recipient → ℕ → ℕ → GrantEvent
  milestone_review_triggered : ℕ → ℕ → ℕ → ℕ → GrantEvent
  milestone_approved : ℕ → ℕ → ℕ → ℕ → GrantEvent
  milestone_rejected : ℕ → ℕ → ℕ → GrantEvent

pub record GrantStore : Type 0 where
  pub foundation_nonce : ℕ
  pub application_nonce : ℕ
  pub milestone_nonce : Map ℕ
  pub foundations : Map Foundation
  pub foundation_donations : DoubleMap ℕ
  pub applications : Map GrantApplication
  pub milestones : DoubleMap MilestoneSubmission
  pub application_poll_frequency : ℕ
  pub milestone_poll_frequency : ℕ

-- The pallet works on the organizations, the votes and the currency.
abbrev pub State : Type 0 → Type 0
State L = Pallet (Runtime L) GrantStore GrantEvent

-- The constants of the pallet, and the account of a foundation.
pub record GrantTrait : Type 0 where
  pub foundation_account_id : ℕ → ℕ
  pub min_deposit : ℕ
  pub min_contribution : ℕ

abbrev pub fail : GrantError → DispatchError
fail = DispatchError.grant

unfoldable pub foundation_id_is_available : GrantStore → ℕ → Bool
foundation_id_is_available s id = is_none (Map.get s.foundations id)

unfoldable pub application_id_is_available : GrantStore → ℕ → Bool
application_id_is_available s id = is_none (Map.get s.applications id)

unfoldable pub milestone_id_is_available : GrantStore → ℕ → ℕ → Bool
milestone_id_is_available s application id = is_none (DoubleMap.get s.milestones application id)

-- The loop over the applications, which removes those of the foundation and their milestones.
unfoldable pub remove_applications : Map GrantApplication → ℕ → GrantStore → GrantStore
remove_applications [] id s = s
remove_applications ((app_id, app) ∷ m) id s =
    let without = record s {
      applications = Map.remove s.applications app_id;
      milestones = DoubleMap.remove_prefix s.milestones app_id;
    } in
    let removed = remove_applications m id without in
    let kept = remove_applications m id s in if app.foundation_id == id then removed else kept

module _ {L : Type 0} where
  -- The loops have one round more than there are entries.
  unfoldable pub foundation_generate_uid : Exec (State L) ℕ
  foundation_generate_uid = do
    s ← gets (λ s. s.store)
    let id_counter = next_free (length s.foundations + 1) s.foundations (add64 s.foundation_nonce 1)
    on_store (λ s. record s { foundation_nonce = id_counter })
    pure id_counter

  unfoldable pub application_generate_uid : Exec (State L) ℕ
  application_generate_uid = do
    s ← gets (λ s. s.store)
    let id_counter =
        next_free (length s.applications + 1) s.applications (add64 s.application_nonce 1)
    on_store (λ s. record s { application_nonce = id_counter })
    pure id_counter

  unfoldable pub milestone_generate_uid : ℕ → Exec (State L) ℕ
  milestone_generate_uid app_id = do
    s ← gets (λ s. s.store)
    let milestones = DoubleMap.iter_prefix s.milestones app_id
    let id_counter =
        next_free (length milestones + 1) milestones
          (add64 (or_zero (Map.get s.milestone_nonce app_id)) 1)
    on_store (λ s. record s { milestone_nonce = Map.insert s.milestone_nonce app_id id_counter })
    pure id_counter

  -- The removal of a foundation with its applications, which no call uses.
  unfoldable pub recursive_remove_foundation : ℕ → Exec (State L) (Unit {0})
  unfolding remove_applications
  recursive_remove_foundation id = do
    on_store (λ s. record s { foundations = Map.remove s.foundations id })
    on_store (λ s. remove_applications s.applications id s)

abbrev pub transferred_if {ℓ} : {A : Type ℓ} → Result A → MilestoneStatus
transferred_if (ok _) = MilestoneStatus.approved_and_transfer_executed
transferred_if (err _) = MilestoneStatus.approved_but_not_transferred

module _ (T : Config) (K : GrantTrait) where
  open T use {transfer}
  open K use {foundation_account_id}

  abbrev pay_recipient : Option OrgRep → MilestoneSubmission → Exec (State T.Ledger) MilestoneStatus
  pay_recipient (some o) m = do
    r ←
        attempt
          (on_base (donate T (foundation_account_id m.base.0) o m.recipient.account m.payment))
    pure (transferred_if r)
  pay_recipient none m = do
    r ← attempt (
        on_base
          (on_ledger (transfer (foundation_account_id m.base.0) m.recipient.account m.payment)))
    pure (transferred_if r)

  -- An organization is paid by a donation, an account by a transfer.
  unfoldable pub approve_milestone_and_try_transfer :
      MilestoneSubmission → Exec (State T.Ledger) MilestoneSubmission
  approve_milestone_and_try_transfer m = do
    status ← pay_recipient m.recipient.org m
    pure (set_milestone m status)
