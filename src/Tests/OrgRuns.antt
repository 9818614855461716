-- ===== src/Tests/OrgRuns.antt =====
-- The org pallet on concrete inputs.
use sunshine_node.Prelude.{
  ℕ, ◌+◌, ◌-◌, ◌<◌, ◌≡◌, refl, subst, none, some, List, [], ◌∷◌, map, true, false, arith, dedup,
  dedup_from, ◌==◌,
}
use sunshine_node.Word.{u64_mod, add64, add32, checked_add}
use sunshine_node.Storage.Map
use sunshine_node.Storage.DoubleMap
use sunshine_node.Storage.Fresh.{next_free, next_id_fresh}
use sunshine_node.Dispatch.{Result, ok, err, is_err, DispatchError, OrgError}
use sunshine_node.Exec.{for_each}
use sunshine_node.Util.Share.{ProfileState, from_vec, verify_shape, sum_from, sum}
use sunshine_node.Runtime.{Runtime, OrgStore}
use sunshine_node.Org
use sunshine_node.Org.Ownership.Invariant.{IsOwned}
use sunshine_node.Org.Ownership.Founding.{new_weighted_org-IsOwned}
use sunshine_node.Org.Ownership.Issue.{issue_shares_unauthorized}
use sunshine_node.Org.Ownership.Locks.{unlock-lock, lock_shares_unauthorized}
use sunshine_node.Org.Holdings.{credit_all}
use sunshine_node.Org.Ownership.Wrapping.{batch_issue_wraps}
use sunshine_node.Org.Removal.{recursive_remove-total, cyclic_removal}
use sunshine_node.Org.Ownership.Reach.{
  Reachable-IsOwned, begin, next, found_weighted, issue, burn, lock,
}
use sunshine_node.Tests.Host.{host, start, empty_org}

pub empty-IsOwned : IsOwned empty_org
unfolding Map.get DoubleMap.get
empty-IsOwned = record {
  unique = tt;
  owned = λ o x h. ground arith;
  bounded = λ o x h. ground arith;
  unused = λ o h. refl;
  empty = λ o who h. refl;
}

-- Account 10 founds an organization: itself with 6 shares, account 11 with 4.
abbrev pub shares : List (ℕ × ℕ)
shares = (10, 6) ∷ (11, 4) ∷ []

abbrev pub founded : Runtime (Map.Map ℕ)
founded = (Org.new_weighted_org host 10 (some 10) none 7 shares start).1

pub shares-fit : sum (from_vec shares).vec < u64_mod
unfolding from_vec dedup dedup_from
shares-fit = omega arith

pub founded-IsOwned : IsOwned founded.org
founded-IsOwned =
    new_weighted_org-IsOwned host 10 (some 10) none 7 start empty-IsOwned (omega arith) shares
      shares-fit

flat-fit : sum (from_vec (map (λ acc. (acc, 1)) (dedup ◌==◌ (10 ∷ 10 ∷ 11 ∷ [])))).vec < u64_mod
unfolding from_vec dedup dedup_from
flat-fit = omega arith

-- The storage that it leaves.
abbrev pub two_members : OrgStore
two_members = record {
  org_id_nonce = 1;
  org_counter = 1;
  orgs = (1, record { sudo = some 10; id = 1; shares = 10; constitution = 7 }) ∷ [];
  org_tree = [];
  members =
      (1, 10, record { id = (1, 10); total = 6; state = ProfileState.unlocked })
      ∷ (1, 11, record { id = (1, 11); total = 4; state = ProfileState.unlocked })
      ∷ [];
}

founded_org : founded.org ≡ two_members
unfolding Map.get Org.new_weighted_org Org.register_organization Org.batch_issue verify_shape
    sum_from from_vec dedup add64 checked_add for_each Org.issue_entry Org.issue DoubleMap.get
    DoubleMap.insert next_free Map.insert Org.generate_unique_id Org.organization_from_src
    Org.register_sub_organization dedup_from add32
founded_org = refl

pub two_members-IsOwned : IsOwned two_members
two_members-IsOwned = subst IsOwned founded_org founded-IsOwned

founded_shares : Org.outstanding_shares founded.org 1 ≡ 10
unfolding Org.outstanding_shares Map.get Org.new_weighted_org Org.register_organization
    Org.batch_issue verify_shape sum_from from_vec dedup add64 checked_add for_each Org.issue_entry
    Org.issue DoubleMap.get DoubleMap.insert next_free Map.insert Org.generate_unique_id
    Org.organization_from_src Org.register_sub_organization dedup_from add32
founded_shares = refl

founded_member :
    Org.get_share_profile founded.org 1 10
    ≡ some (record { id = (1, 10); total = 6; state = ProfileState.unlocked })
unfolding Org.get_share_profile Map.get Org.new_weighted_org Org.register_organization
    Org.batch_issue verify_shape sum_from from_vec dedup add64 checked_add for_each Org.issue_entry
    Org.issue DoubleMap.get DoubleMap.insert next_free Map.insert Org.generate_unique_id
    Org.organization_from_src Org.register_sub_organization dedup_from add32
founded_member = refl

room_for_five : Org.outstanding_shares founded.org 1 + 5 < u64_mod
room_for_five = rw founded_shares (omega arith)

not_supervisor : Org.is_organization_supervisor founded.org 1 11 ≡ false
unfolding Org.is_organization_supervisor Map.get Org.new_weighted_org Org.register_organization
    Org.batch_issue verify_shape sum_from from_vec dedup add64 checked_add for_each Org.issue_entry
    Org.issue DoubleMap.get DoubleMap.insert next_free Map.insert Org.generate_unique_id
    Org.organization_from_src Org.register_sub_organization dedup_from add32
not_supervisor = refl

issue_shares_unauthorized_example :
    ((Org.issue_shares host 11 1 12 5 founded).1 ≡ founded)
    × (is_err (Org.issue_shares host 11 1 12 5 founded).0 ≡ true)
issue_shares_unauthorized_example =
    issue_shares_unauthorized host 11 1 12 5 founded 11 refl not_supervisor

lock_shares_unauthorized_example :
    ((Org.lock_shares host 11 1 10 founded).1 ≡ founded)
    × (is_err (Org.lock_shares host 11 1 10 founded).0 ≡ true)
    × ((Org.unlock_shares host 11 1 10 founded).1 ≡ founded)
    × (is_err (Org.unlock_shares host 11 1 10 founded).0 ≡ true)
lock_shares_unauthorized_example =
    lock_shares_unauthorized host 11 1 10 founded 11 refl not_supervisor (omega arith)

unlock-lock_example :
    (t : Runtime (Map.Map ℕ)) × (u : Runtime (Map.Map ℕ)) × (Org.lock_profile 1 10 founded
      ≡ (ok tt, t))
    × (Org.lock_profile 1 10 t
        ≡ (err (DispatchError.org OrgError.cannot_lock_if_already_locked), t))
    × (Org.unlock_profile 1 10 t ≡ (ok tt, u))
    × (Org.get_share_profile u.org 1 10
        ≡ some (record { id = (1, 10); total = 6; state = ProfileState.unlocked }))
unlock-lock_example =
    unlock-lock 1 10 founded (record { id = (1, 10); total = 6; state = ProfileState.unlocked })
      founded_member refl

-- The counter is 0, and 1 and 2 are taken.
abbrev taken : Map.Map ℕ
taken = (1, 7) ∷ (2, 8) ∷ []

next_id_fresh_example :
    (0 < next_free 3 taken (add64 0 1)) × (Map.get taken (next_free 3 taken (add64 0 1)) ≡ none)
next_id_fresh_example = next_id_fresh taken 0 (omega arith)

-- Organization 2 is below organization 1.
abbrev family : Runtime (Map.Map ℕ)
family = record start {
  org = record two_members { org_tree = (1, 2, record { parent = 1; child = 2 }) ∷ [] };
}

recursive_remove-total_example :
    (r : Result (Unit {0})) × (t : Runtime (Map.Map ℕ)) × (Org.recursive_remove_organization 3 1
        family
      ≡ some (r, t))
recursive_remove-total_example = recursive_remove-total (λ o. 3 - o) 1 family (omega arith, tt)

-- Organization 1 is its own parent.
abbrev own_parent : Runtime (Map.Map ℕ)
own_parent = record start {
  org = record two_members { org_tree = (1, 1, record { parent = 1; child = 1 }) ∷ [] };
}

own_parent-cycle :
    (o : ℕ)
    → o ≡ 1
    → (child : ℕ) × (rest : List ℕ) × (Org.id_is_available own_parent.org o ≡ false)
      × (Org.keys (DoubleMap.iter_prefix own_parent.org.org_tree o) ≡ child ∷ rest)
      × (child ≡ 1)
unfolding Org.id_is_available Map.get DoubleMap.iter_prefix
own_parent-cycle o is = (1, [], rw is refl, rw is refl, refl)

cyclic_removal_example : Org.recursive_remove_organization 100 1 own_parent ≡ none
cyclic_removal_example = cyclic_removal (λ o. o ≡ 1) own_parent own_parent-cycle 100 1 refl

batch_issue_wraps_example :
    ((Org.batch_issue 1 (from_vec ((12, 1) ∷ (13, u64_mod - 1) ∷ [])) family).0 ≡ ok 10)
    × ((Org.batch_issue 1 (from_vec ((12, 1) ∷ (13, u64_mod - 1) ∷ [])) family).1.org
        ≡ record family.org {
          members = credit_all 1 ((12, 1) ∷ (13, u64_mod - 1) ∷ []) family.org.members;
        })
unfolding Map.get
batch_issue_wraps_example =
    batch_issue_wraps 12 13 1 (u64_mod - 1) (omega arith) (omega arith) 1 family (omega arith)

-- After the founding, account 12 is issued 5 shares, and account 11 burns 3 and is locked.
abbrev grown : Runtime (Map.Map ℕ)
grown = (Org.issue_shares host 10 1 12 5 founded).1

abbrev burned : Runtime (Map.Map ℕ)
burned = (Org.burn_shares host 10 1 11 3 grown).1

Reachable-IsOwned_example : IsOwned (Org.lock_shares host 11 1 11 burned).1.org
Reachable-IsOwned_example = Reachable-IsOwned host (
    next
      (next
        (next
          (next (begin start refl refl)
            (found_weighted 10 (some 10) none 7 shares (omega arith) shares-fit))
          (issue 10 1 12 5 room_for_five))
        (burn 10 1 11 3))
      (lock 11 1 11))
