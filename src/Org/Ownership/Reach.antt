-- ===== src/Org/Ownership/Reach.antt =====
-- The calls of the org pallet as a step relation, and the shares of every reachable state.
use sunshine_node.Prelude.{
  ℕ, ◌+◌, ◌<◌, ◌≡◌, refl, sym, subst, inl, inr, not, Option, some, List, [], map, arith, dedup,
  ◌==◌, ◌||◌, Bool-cases, Option-cases, ==_iff,
}
use sunshine_node.Word.{u64_mod}
use sunshine_node.Storage.Map
use sunshine_node.Storage.DoubleMap
use sunshine_node.Storage.DoubleMap.{insert-Unique}
use sunshine_node.Dispatch.{Result-cases}
use sunshine_node.Util.Share.{ShareProfile, is_unlocked, from_vec, sum}
use sunshine_node.Runtime.{Runtime, OrgStore, Config}
use sunshine_node.Org.Base.{
  id_is_available, is_organization_supervisor, lock_profile, unlock_profile, outstanding_shares,
}
use sunshine_node.Org.Register.{remove_organization}
use sunshine_node.Org.Calls.{
  new_weighted_org, new_flat_org, issue_shares, burn_shares, batch_issue_shares, lock_shares,
  unlock_shares,
}
use sunshine_node.Org.Holdings.{held, held-insert, held-insert_ne}
use sunshine_node.Org.Ownership.Invariant.{IsOwned}
use sunshine_node.Org.Ownership.Founding.{HasRoom, new_weighted_org-IsOwned, new_flat_org-IsOwned}
use sunshine_node.Org.Ownership.Issue.{issue_shares-IsOwned}
use sunshine_node.Org.Ownership.Burn.{burn_shares-IsOwned}
use sunshine_node.Org.Ownership.Batch.{batch_issue_shares-IsOwned}
use sunshine_node.Org.Removal.{remove_organization-IsOwned}

-- A profile is written over one with as many shares.
rewritten-IsOwned :
    (s : OrgStore) (o who : ℕ) (p q : ShareProfile)
    → IsOwned s
    → DoubleMap.get s.members o who ≡ some p
    → q.total ≡ p.total
    → IsOwned (record s { members = DoubleMap.insert s.members o who q })
rewritten-IsOwned s o who p q is found same = record {
  unique = insert-Unique s.members o who q is.unique;
  owned = λ j x h. elim (Bool-cases (o == j)) [
    | inl self ↦
        subst (λ k. x.shares ≡ held k (DoubleMap.insert s.members o who q)) ((==_iff o j).0 self)
          (omega (
            arith,
            held-insert o who q s.members p found,
            subst (λ k. x.shares ≡ held k s.members) (sym ((==_iff o j).0 self)) (is.owned j x h),
          ))
    | inr other ↦
        omega (arith, is.owned j x h, held-insert_ne o who q s.members j (λ e. ground arith))
  ];
  bounded = is.bounded;
  unused = is.unused;
  empty =
      λ j w above. ground (arith, DoubleMap.get-insert s.members o who j w q, is.empty j w above);
}

module _ {L : Type 0} (o who : ℕ) (s : Runtime L) (is : IsOwned s.org) where
  lock_profile-IsOwned : IsOwned (lock_profile o who s).1.org
  unfolding lock_profile
  lock_profile-IsOwned = elim (Option-cases (DoubleMap.get s.org.members o who)) [
    | inl absent ↦ rw absent is
    | inr (p, found) ↦ elim (Bool-cases (is_unlocked p)) [
      | inr locked ↦ rw (found, locked) is
      | inl free ↦ rw (found, free) (rewritten-IsOwned s.org o who p _ is found refl)
    ]
  ]

  unlock_profile-IsOwned : IsOwned (unlock_profile o who s).1.org
  unfolding unlock_profile
  unlock_profile-IsOwned = elim (Option-cases (DoubleMap.get s.org.members o who)) [
    | inl absent ↦ rw absent is
    | inr (p, found) ↦ elim (Bool-cases (not (is_unlocked p))) [
      | inr free ↦ rw (found, free) is
      | inl locked ↦ rw (found, locked) (rewritten-IsOwned s.org o who p _ is found refl)
    ]
  ]

module _ (T : Config) (origin : T.Origin) (o who : ℕ) (s : Runtime T.Ledger)
    (is : IsOwned s.org) where
  lock_shares-IsOwned : IsOwned (lock_shares T origin o who s).1.org
  unfolding lock_shares
  lock_shares-IsOwned = elim (Result-cases (T.ensure_signed origin)) [
    | inr (e, unsigned) ↦ rw unsigned is
    | inl (caller, signed) ↦ elim (Bool-cases (not (id_is_available s.org o))) [
      | inr absent ↦ rw (signed, absent) is
      | inl there ↦ elim (Bool-cases (is_organization_supervisor s.org o caller || caller == who)) [
        | inr stranger ↦ rw (signed, there, stranger) is
        | inl may ↦ elim (Result-cases (lock_profile o who s).0) [
          | inr (e, refused) ↦ rw (signed, there, may, refused) (lock_profile-IsOwned o who s is)
          | inl locked ↦ rw (signed, there, may, locked.1) (lock_profile-IsOwned o who s is)
        ]
      ]
    ]
  ]

  unlock_shares-IsOwned : IsOwned (unlock_shares T origin o who s).1.org
  unfolding unlock_shares
  unlock_shares-IsOwned = elim (Result-cases (T.ensure_signed origin)) [
    | inr (e, unsigned) ↦ rw unsigned is
    | inl (caller, signed) ↦ elim (Bool-cases (not (id_is_available s.org o))) [
      | inr absent ↦ rw (signed, absent) is
      | inl there ↦ elim (Bool-cases (is_organization_supervisor s.org o caller || caller == who)) [
        | inr stranger ↦ rw (signed, there, stranger) is
        | inl may ↦ elim (Result-cases (unlock_profile o who s).0) [
          | inr (e, refused) ↦ rw (signed, there, may, refused) (unlock_profile-IsOwned o who s is)
          | inl free ↦ rw (signed, there, may, free.1) (unlock_profile-IsOwned o who s is)
        ]
      ]
    ]
  ]

-- What can happen to the pallet: its calls by anybody, where identifiers are left and no sum of
-- shares reaches 2^64, the removal of an organization, and whatever leaves its storage alone. A batch
-- of burns is not among them: it may burn less than it takes from the total.
pub data Step (T : Config) (s : Runtime T.Ledger) : Runtime T.Ledger → Type 0 where
  found_weighted :
      (origin : T.Origin) (sudo parent : Option ℕ) (constitution : ℕ) (weighted : List (ℕ × ℕ))
      → HasRoom s.org
      → sum (from_vec weighted).vec < u64_mod
      → Step T s (new_weighted_org T origin sudo parent constitution weighted s).1
  found_flat :
      (origin : T.Origin) (sudo parent : Option ℕ) (constitution : ℕ) (members : List ℕ)
      → HasRoom s.org
      → sum (from_vec (map (λ acc. (acc, 1)) (dedup ◌==◌ members))).vec < u64_mod
      → Step T s (new_flat_org T origin sudo parent constitution members s).1
  issue :
      (origin : T.Origin) (o who amount : ℕ)
      → outstanding_shares s.org o + amount < u64_mod
      → Step T s (issue_shares T origin o who amount s).1
  burn : (origin : T.Origin) (o who amount : ℕ) → Step T s (burn_shares T origin o who amount s).1
  batch_issue :
      (origin : T.Origin) (o : ℕ) (accounts : List (ℕ × ℕ))
      → sum (from_vec accounts).vec < u64_mod
      → Step T s (batch_issue_shares T origin o accounts s).1
  lock : (origin : T.Origin) (o who : ℕ) → Step T s (lock_shares T origin o who s).1
  unlock : (origin : T.Origin) (o who : ℕ) → Step T s (unlock_shares T origin o who s).1
  remove : (o : ℕ) → Step T s (remove_organization o s).1
  elsewhere : (t : Runtime T.Ledger) → t.org ≡ s.org → Step T s t

pub data Reachable (T : Config) : Runtime T.Ledger → Type 0 where
  begin : (s : Runtime T.Ledger) → s.org.orgs ≡ [] → s.org.members ≡ [] → Reachable T s
  next : {s t : Runtime T.Ledger} → Reachable T s → Step T s t → Reachable T t

abbrev without : OrgStore → OrgStore
without s = record s { orgs = []; members = [] }

without-IsOwned : (s : OrgStore) → IsOwned (without s)
unfolding Map.get DoubleMap.get
without-IsOwned s = record {
  unique = tt;
  owned = λ o x h. ground (arith, h);
  bounded = λ o x h. ground (arith, h);
  unused = λ o h. refl;
  empty = λ o who h. refl;
}

module _ (T : Config) where
  Step-IsOwned : {s t : Runtime T.Ledger} → Step T s t → IsOwned s.org → IsOwned t.org
  Step-IsOwned {s} (found_weighted origin sudo parent constitution weighted room fits) is =
      new_weighted_org-IsOwned T origin sudo parent constitution s is room weighted fits
  Step-IsOwned {s} (found_flat origin sudo parent constitution members room fits) is =
      new_flat_org-IsOwned T origin sudo parent constitution s is room members fits
  Step-IsOwned {s} (issue origin o who amount fits) is =
      issue_shares-IsOwned T origin o who amount s is fits
  Step-IsOwned {s} (burn origin o who amount) is = burn_shares-IsOwned T origin o who amount s is
  Step-IsOwned {s} (batch_issue origin o accounts fits) is =
      batch_issue_shares-IsOwned T origin o accounts s is fits
  Step-IsOwned {s} (lock origin o who) is = lock_shares-IsOwned T origin o who s is
  Step-IsOwned {s} (unlock origin o who) is = unlock_shares-IsOwned T origin o who s is
  Step-IsOwned {s} (remove o) is = (remove_organization-IsOwned o s is).0
  Step-IsOwned {s} (elsewhere t same) is = subst IsOwned (sym same) is

  -- In every state that the calls of the pallet lead to from one without organizations, in any order
  -- and by anybody, no member is listed twice, and the shares of every organization are those that
  -- its members hold, below 2^64. It is about calls that find an identifier and leave the sums of
  -- shares below 2^64, and not about batches of burns.
  pub Reachable-IsOwned : {s : Runtime T.Ledger} → Reachable T s → IsOwned s.org
  Reachable-IsOwned (begin s no_org no_member) =
      subst (λ m. IsOwned (record s.org { members = m })) (sym no_member)
        (subst (λ m. IsOwned (record s.org { orgs = m; members = [] })) (sym no_org)
          (without-IsOwned s.org))
  Reachable-IsOwned (next r st) = Step-IsOwned st (Reachable-IsOwned r)
