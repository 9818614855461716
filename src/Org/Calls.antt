-- ===== src/Org/Calls.antt =====
-- The dispatchable calls of the org pallet.
use sunshine_node.Prelude.{ℕ, ◌%◌, false, not, ◌||◌, Option, none, some, List, ◌==◌, length, dedup}
use sunshine_node.Storage.Map
use sunshine_node.Dispatch.{DispatchError, OrgError}
use sunshine_node.Exec.{Exec, gets, lift, ok_or, ensure, ◌>>=◌, ◌>>◌}
use sunshine_node.Word.{u32_mod}
use sunshine_node.Util.Organization
use sunshine_node.Util.Organization.{OrganizationSource}
use sunshine_node.Util.Share.{from_vec}
use sunshine_node.Runtime.{Runtime, Config, Call, deposit_event, Event, OrgEvent}
use sunshine_node.Org.Base.{
  id_is_available, is_organization_supervisor, lock_profile, unlock_profile, put_org,
}
use sunshine_node.Org.Issuance.{issue, burn, batch_issue, batch_burn}
use sunshine_node.Org.Register.{register_organization, register_sub_organization}

abbrev emit : {L : Type 0} → OrgEvent → Exec (Runtime L) (Unit {0})
emit e = deposit_event (Event.org e)

abbrev fail : OrgError → DispatchError
fail = DispatchError.org

module _ {L : Type 0} where
  abbrev pub register : Option ℕ → OrganizationSource → Option ℕ → ℕ → Exec (Runtime L) ℕ
  register none source sudo constitution = register_organization source sudo constitution
  register (some parent_id) source sudo constitution =
      register_sub_organization parent_id source sudo constitution

module _ (T : Config) where
  open T use {Origin, ensure_signed}

  unfoldable pub new_flat_org : Origin → Option ℕ → Option ℕ → ℕ → List ℕ → Call T (Unit {0})
  new_flat_org origin sudo parent_org constitution members = do
    caller ← lift (ensure_signed origin)
    let m = dedup ◌==◌ members
    let total = length m % u32_mod
    new_id ← register parent_org (OrganizationSource.accounts m) sudo constitution
    emit (OrgEvent.new_flat_org caller new_id constitution total)

  unfoldable pub new_weighted_org :
      Origin → Option ℕ → Option ℕ → ℕ → List (ℕ × ℕ) → Call T (Unit {0})
  new_weighted_org origin sudo parent_org constitution weighted_members = do
    caller ← lift (ensure_signed origin)
    let wm_cpy = from_vec weighted_members
    new_id ←
        register parent_org (OrganizationSource.accounts_weighted weighted_members) sudo
          constitution
    emit (OrgEvent.new_weighted_org caller new_id constitution wm_cpy.total)

  unfoldable pub issue_shares : Origin → ℕ → ℕ → ℕ → Call T (Unit {0})
  issue_shares origin organization who shares = do
    issuer ← lift (ensure_signed origin)
    s ← gets (λ s. s.org)
    ensure (not (id_is_available s organization)) (fail OrgError.org_dne)
    let authentication = is_organization_supervisor s organization issuer
    ensure authentication (fail OrgError.not_authorized_for_account)
    issue organization who shares false
    emit (OrgEvent.shares_issued organization who shares)

  unfoldable pub burn_shares : Origin → ℕ → ℕ → ℕ → Call T (Unit {0})
  burn_shares origin organization who shares = do
    burner ← lift (ensure_signed origin)
    s ← gets (λ s. s.org)
    ensure (not (id_is_available s organization)) (fail OrgError.org_dne)
    let authentication = is_organization_supervisor s organization burner
    ensure authentication (fail OrgError.not_authorized_for_account)
    portion ← burn T organization who (some shares) false
    emit (OrgEvent.shares_burned organization who shares)

  unfoldable pub batch_issue_shares : Origin → ℕ → List (ℕ × ℕ) → Call T (Unit {0})
  batch_issue_shares origin organization new_accounts = do
    issuer ← lift (ensure_signed origin)
    s ← gets (λ s. s.org)
    org ← ok_or (Map.get s.orgs organization) (fail OrgError.org_dne)
    let authentication = is_organization_supervisor s organization issuer
    ensure authentication (fail OrgError.not_authorized_for_account)
    let genesis = from_vec new_accounts
    let total_new_shares_minted = genesis.total
    total ← batch_issue organization genesis
    put_org organization (Organization.set_shares org total)
    emit (OrgEvent.shares_batch_issued organization total_new_shares_minted total)

  unfoldable pub batch_burn_shares : Origin → ℕ → List (ℕ × ℕ) → Call T (Unit {0})
  batch_burn_shares origin organization old_accounts = do
    issuer ← lift (ensure_signed origin)
    s ← gets (λ s. s.org)
    ensure (not (id_is_available s organization)) (fail OrgError.org_dne)
    let authentication = is_organization_supervisor s organization issuer
    ensure authentication (fail OrgError.not_authorized_for_account)
    let genesis = from_vec old_accounts
    let total_new_shares_burned = genesis.total
    batch_burn T organization genesis
    emit (OrgEvent.shares_batch_burned organization total_new_shares_burned)

  unfoldable pub lock_shares : Origin → ℕ → ℕ → Call T (Unit {0})
  lock_shares origin organization who = do
    locker ← lift (ensure_signed origin)
    s ← gets (λ s. s.org)
    ensure (not (id_is_available s organization)) (fail OrgError.org_dne)
    let authentication = is_organization_supervisor s organization locker || locker == who
    ensure authentication (fail OrgError.not_authorized_for_account)
    lock_profile organization who
    emit (OrgEvent.shares_locked organization who)

  unfoldable pub unlock_shares : Origin → ℕ → ℕ → Call T (Unit {0})
  unlock_shares origin organization who = do
    unlocker ← lift (ensure_signed origin)
    s ← gets (λ s. s.org)
    ensure (not (id_is_available s organization)) (fail OrgError.org_dne)
    let authentication = is_organization_supervisor s organization unlocker || unlocker == who
    ensure authentication (fail OrgError.not_authorized_for_account)
    unlock_profile organization who
    emit (OrgEvent.shares_unlocked organization who)
