-- ===== src/Org/Register.antt =====
-- `impl RegisterOrganization` and `impl RemoveOrganization` of the org pallet.
use sunshine_node.Prelude.{
  ℕ, zero, suc, ◌-◌, true, false, not, Option, none, some, List, [], ◌∷◌, map,
}
use sunshine_node.Word.{add32}
use sunshine_node.Storage.Map
use sunshine_node.Storage.DoubleMap
use sunshine_node.Dispatch.{DispatchError, OrgError, Result, ok, err}
use sunshine_node.Exec.{Exec, pure, gets, ensure, ◌>>=◌, ◌>>◌}
use sunshine_node.Util.Organization.{Organization, OrganizationSource}
use sunshine_node.Util.Share.{from_vec}
use sunshine_node.Runtime.{Runtime, deposit_event, Event, OrgEvent}
use sunshine_node.Org.Base.{keys, id_is_available, generate_unique_id, on_org, put_org}
use sunshine_node.Org.Issuance.{batch_issue}

abbrev pub weighted_accounts : OrganizationSource → List (ℕ × ℕ)
weighted_accounts (OrganizationSource.accounts accounts) = map (λ acc. (acc, 1)) accounts
weighted_accounts (OrganizationSource.accounts_weighted weighted) = weighted

-- What may not end: `none` when the fuel runs out.
abbrev pub Partial : Type 0 → Type 0
Partial L = Runtime L → Option (Result (Unit {0}) × Runtime L)

module _ {L : Type 0} where
  unfoldable pub organization_from_src :
      OrganizationSource → ℕ → Option ℕ → ℕ → Exec (Runtime L) Organization
  organization_from_src src org_id supervisor value_constitution = do
    total ← batch_issue org_id (from_vec (weighted_accounts src))
    pure (record {
      sudo = supervisor;
      id = org_id;
      shares = total;
      constitution = value_constitution;
    })

  unfoldable pub register_organization : OrganizationSource → Option ℕ → ℕ → Exec (Runtime L) ℕ
  unfolding generate_unique_id organization_from_src
  register_organization source supervisor value_constitution = do
    new_org_id ← generate_unique_id
    new_organization ← organization_from_src source new_org_id supervisor value_constitution
    put_org new_org_id new_organization
    on_org (λ s. record s { org_counter = add32 s.org_counter 1 })
    pure new_org_id

  unfoldable pub register_sub_organization :
      ℕ → OrganizationSource → Option ℕ → ℕ → Exec (Runtime L) ℕ
  unfolding generate_unique_id organization_from_src
  register_sub_organization parent_id source supervisor value_constitution = do
    new_org_id ← generate_unique_id
    new_organization ← organization_from_src source new_org_id supervisor value_constitution
    on_org (λ s. record s {
      org_tree =
          DoubleMap.insert s.org_tree parent_id new_org_id
            (record { parent = parent_id; child = new_org_id });
    })
    put_org new_org_id new_organization
    on_org (λ s. record s { org_counter = add32 s.org_counter 1 })
    pure new_org_id

  unfoldable pub remove_organization : ℕ → Exec (Runtime L) (Unit {0})
  unfolding id_is_available
  remove_organization id = do
    s ← gets (λ s. s.org)
    ensure (not (id_is_available s id))
        (DispatchError.org OrgError.organization_cannot_be_removed_if_input_id_is_available)
    on_org (λ s. record s { orgs = Map.remove s.orgs id; org_counter = s.org_counter - 1 })

  -- `iter().map(f).collect::<DispatchResult>()`: stops at the first error.
  unfoldable pub collect : (ℕ → Partial L) → List ℕ → Partial L
  collect f [] s = some (ok tt, s)
  collect f (child ∷ rest) s = elim (f child s) [
    | none ↦ none
    | some (r, s') ↦ elim r [ err e ↦ some (err e, s') | ok _ ↦ collect f rest s' ]
  ]

  unfoldable pub removed_with_event : ℕ → Exec (Runtime L) (Unit {0})
  unfolding remove_organization
  removed_with_event id = do
    remove_organization id
    deposit_event (Event.org (OrgEvent.org_removed id))

  -- The recursion has no bound in the source: each level of it takes one unit of fuel.
  unfoldable pub recursive_remove_organization : ℕ → ℕ → Partial L
  unfolding id_is_available collect removed_with_event
  recursive_remove_organization zero id s = none
  recursive_remove_organization (suc fuel) id s = elim (id_is_available s.org id) [
    | true ↦ some (
      err (DispatchError.org OrgError.organization_cannot_be_removed_if_input_id_is_available),
      s,
    )
    | false ↦
        elim (collect (recursive_remove_organization fuel)
          (keys (DoubleMap.iter_prefix s.org.org_tree id)) s) [
            | none ↦ none
            | some (r, s') ↦ elim r [
              | err e ↦ some (err e, s')
              | ok _ ↦ some (removed_with_event id s')
            ]
          ]
  ]
