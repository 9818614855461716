-- ===== src/Org/Base.antt =====
-- The queries of the org pallet, its identifiers, its supervisors and its locks.
use sunshine_node.Prelude.{
  ℕ, ◌+◌, Bool, false, not, Option, none, some, List, [], ◌∷◌, map, length, is_some, is_none,
  if◌then◌else◌,
}
use sunshine_node.Word.{add64}
use sunshine_node.Storage.Map
use sunshine_node.Storage.DoubleMap
use sunshine_node.Storage.Fresh.{next_free}
use sunshine_node.Dispatch.{DispatchError, OrgError}
use sunshine_node.Exec.{Exec, pure, gets, modify, ok_or, ensure, ◌>>=◌, ◌>>◌}
use sunshine_node.Util.Organization
use sunshine_node.Util.Organization.{Organization, Relation}
use sunshine_node.Util.Share.{ShareProfile, WeightedVector, from_vec, lock, unlock, is_unlocked}
use sunshine_node.Runtime.{OrgStore, Runtime}

-- Queries, on the pallet's storage.

unfoldable pub is_immediate_child : OrgStore → ℕ → ℕ → Bool
is_immediate_child s parent child = is_some (DoubleMap.get s.org_tree parent child)

abbrev pub keys {ℓ} : {V : Type ℓ} → Map.Map V → List ℕ
keys m = map (λ e. e.0) m

abbrev pub none_if_empty : List ℕ → Option (List ℕ)
none_if_empty [] = none
none_if_empty (x ∷ ret) = some (x ∷ ret)

unfoldable pub get_immediate_children : OrgStore → ℕ → Option (List ℕ)
get_immediate_children s parent = none_if_empty (keys (DoubleMap.iter_prefix s.org_tree parent))

unfoldable pub is_member_of_group : OrgStore → ℕ → ℕ → Bool
is_member_of_group s org_id who = is_some (DoubleMap.get s.members org_id who)

unfoldable pub id_is_available : OrgStore → ℕ → Bool
id_is_available s id = is_none (Map.get s.orgs id)

abbrev pub supervised_by : Option Organization → ℕ → Bool
supervised_by none who = false
supervised_by (some state) who = Organization.is_sudo state who

unfoldable pub is_organization_supervisor : OrgStore → ℕ → ℕ → Bool
is_organization_supervisor s org who = supervised_by (Map.get s.orgs org) who

-- `OrderedSet::from` is the parameter `ordered_set`.
unfoldable pub get_group : (List ℕ → List ℕ) → OrgStore → ℕ → Option (List ℕ)
unfolding id_is_available
get_group ordered_set s organization =
    if not (id_is_available s organization)
    then some (ordered_set (keys (DoubleMap.iter_prefix s.members organization)))
    else none

abbrev pub shares_or_zero : Option Organization → ℕ
shares_or_zero none = 0
shares_or_zero (some o) = o.shares

unfoldable pub outstanding_shares : OrgStore → ℕ → ℕ
outstanding_shares s organization = shares_or_zero (Map.get s.orgs organization)

unfoldable pub get_share_profile : OrgStore → ℕ → ℕ → Option ShareProfile
get_share_profile s organization who = DoubleMap.get s.members organization who

abbrev pub account_shares : ℕ × ShareProfile → ℕ × ℕ
account_shares (account, profile) = (account, profile.total)

unfoldable pub get_membership_with_shape : OrgStore → ℕ → Option WeightedVector
unfolding id_is_available
get_membership_with_shape s organization =
    if not (id_is_available s organization)
    then some (from_vec (map account_shares (DoubleMap.iter_prefix s.members organization)))
    else none

-- Operations, on the runtime.

module _ {L : Type 0} where
  abbrev pub on_org : (OrgStore → OrgStore) → Exec (Runtime L) (Unit {0})
  on_org f = modify (λ s. record s { org = f s.org })

  abbrev pub put_org : ℕ → Organization → Exec (Runtime L) (Unit {0})
  put_org id o = on_org (λ s. record s { orgs = Map.insert s.orgs id o })

  abbrev pub put_member : ℕ → ℕ → ShareProfile → Exec (Runtime L) (Unit {0})
  put_member id who p = on_org (λ s. record s { members = DoubleMap.insert s.members id who p })

  -- The loop has one round more than there are organizations.
  unfoldable pub generate_unique_id : Exec (Runtime L) ℕ
  generate_unique_id = do
    s ← gets (λ s. s.org)
    let id_counter = next_free (length s.orgs + 1) s.orgs (add64 s.org_id_nonce 1)
    on_org (λ s. record s { org_id_nonce = id_counter })
    pure id_counter

  unfoldable pub clear_organization_supervisor : ℕ → Exec (Runtime L) (Unit {0})
  clear_organization_supervisor org = do
    s ← gets (λ s. s.org)
    old_org ← ok_or (Map.get s.orgs org) (DispatchError.org OrgError.org_dne)
    put_org org (Organization.clear_sudo old_org)

  unfoldable pub put_organization_supervisor : ℕ → ℕ → Exec (Runtime L) (Unit {0})
  put_organization_supervisor org who = do
    s ← gets (λ s. s.org)
    old_org ← ok_or (Map.get s.orgs org) (DispatchError.org OrgError.org_dne)
    put_org org (Organization.put_sudo old_org who)

  unfoldable pub lock_profile : ℕ → ℕ → Exec (Runtime L) (Unit {0})
  lock_profile organization who = do
    s ← gets (λ s. s.org)
    old_profile ←
        ok_or (DoubleMap.get s.members organization who) (DispatchError.org OrgError.profile_dne)
    ensure (is_unlocked old_profile) (DispatchError.org OrgError.cannot_lock_if_already_locked)
    put_member organization who (lock old_profile)

  unfoldable pub unlock_profile : ℕ → ℕ → Exec (Runtime L) (Unit {0})
  unlock_profile organization who = do
    s ← gets (λ s. s.org)
    old_profile ←
        ok_or (DoubleMap.get s.members organization who) (DispatchError.org OrgError.profile_dne)
    ensure (not (is_unlocked old_profile))
        (DispatchError.org OrgError.cannot_un_lock_if_already_un_locked)
    put_member organization who (unlock old_profile)
