-- ===== src/Org/Ownership/Batch.antt =====
-- `batch_issue` and `batch_issue_shares` keep the invariant.
use sunshine_node.Prelude.{
  ℕ, ◌+◌, ◌<◌, ◌≡◌, refl, ◌∙◌, ap, inl, inr, ◌⊎◌, some, List, [], ◌∷◌, true, false, arith,
  Bool-cases, Option-cases, ltb,
}
use sunshine_node.Word.{u64_mod, checked_add}
use sunshine_node.Storage.Map
use sunshine_node.Dispatch.{ok, err, DispatchError, OrgError}
use sunshine_node.Exec.{for_each}
use sunshine_node.Util.Organization
use sunshine_node.Util.Organization.{Organization}
use sunshine_node.Util.Share.{
  WeightedVector, from_vec, verify_shape, sum, sum_from-eq-sum, verify_shape-from_vec,
}
use sunshine_node.Runtime.{OrgStore, Runtime, Config}
use sunshine_node.Org.Base.{shares_or_zero}
use sunshine_node.Org.Issuance.{issue, issue_entry, batch_issue}
use sunshine_node.Org.Calls.{batch_issue_shares}
use sunshine_node.Org.Holdings.{
  held, credit, credit_all, held-credit_all, held-credit_all_ne, get-credit_all_ne,
  credit_all-Unique,
}
use sunshine_node.Org.Ownership.Invariant.{IsOwned, SameOthers, known-le, update-Owned}

pub credit_all-SameOthers :
    (o : ℕ) (vec : List (ℕ × ℕ)) (s : OrgStore)
    → SameOthers o s.members (credit_all o vec s.members)
credit_all-SameOthers o vec s = record {
  same_held = λ j ne. held-credit_all_ne o j vec s.members ne;
  same_members = λ j w ne. get-credit_all_ne o j w vec s.members ne;
}

-- The total of a vector that does not overflow is its sum.
pub from_vec-total :
    (accounts : List (ℕ × ℕ))
    → sum (from_vec accounts).vec < u64_mod
    → (from_vec accounts).total ≡ sum (from_vec accounts).vec
unfolding from_vec
from_vec-total accounts h =
    omega (arith, sum_from-eq-sum 0 (from_vec accounts).vec (omega (arith, h)))

module _ {L : Type 0} (o : ℕ) where
  entry_ok : (who amount : ℕ) (s : Runtime L) → (issue_entry o (who, amount) s).0 ≡ ok tt
  unfolding issue_entry issue
  entry_ok who amount s = ground arith

  entry_org :
      (who amount : ℕ) (s : Runtime L)
      → (issue_entry o (who, amount) s).1.org
        ≡ record s.org { members = credit o s.org.members who amount }
  unfolding issue_entry issue
  entry_org who amount s = ground arith

  -- After the loop each account has its shares, and the pallet's other items are as they were.
  pub issue_all-ok :
      (vec : List (ℕ × ℕ)) (s : Runtime L) → (for_each (issue_entry o) vec s).0 ≡ ok tt
  unfolding for_each
  issue_all-ok [] s = refl
  issue_all-ok ((who, amount) ∷ rest) s =
      rw (entry_ok who amount s) (issue_all-ok rest (issue_entry o (who, amount) s).1)

  pub issue_all-org :
      (vec : List (ℕ × ℕ)) (s : Runtime L)
      → (for_each (issue_entry o) vec s).1.org
        ≡ record s.org { members = credit_all o vec s.org.members }
  unfolding for_each credit_all
  issue_all-org [] s = refl
  issue_all-org ((who, amount) ∷ rest) s =
      let s1 = (issue_entry o (who, amount) s).1 in
      rw (entry_ok who amount s) (
        issue_all-org rest s1
        ∙ ap (λ (t : OrgStore). record t { members = credit_all o rest t.members })
            (entry_org who amount s))

  abbrev pub base : Runtime L → ℕ
  base s = shares_or_zero (Map.get s.org.orgs o)

  module _ (g : WeightedVector) (shape : verify_shape g ≡ true) (s : Runtime L) where
    pub batch_issue_overflow :
        ltb (base s + g.total) u64_mod ≡ false
        → batch_issue o g s ≡ (err (DispatchError.org OrgError.issuance_would_overflow_shares), s)
    unfolding batch_issue checked_add
    batch_issue_overflow h = rw (shape, h)

    pub batch_issue-ok :
        ltb (base s + g.total) u64_mod ≡ true → (batch_issue o g s).0 ≡ ok (base s + g.total)
    unfolding batch_issue checked_add
    batch_issue-ok h = rw (shape, h) (rw (issue_all-ok g.vec s))

    pub batch_issue-org :
        ltb (base s + g.total) u64_mod ≡ true
        → (batch_issue o g s).1.org ≡ record s.org { members = credit_all o g.vec s.org.members }
    unfolding batch_issue checked_add
    batch_issue-org h = rw (shape, h) (rw (issue_all-ok g.vec s) (issue_all-org g.vec s))

-- What a batch did: the shares of an organization that was found are those before and the batch's.
record Issued (o : ℕ) (g : WeightedVector) (s s' : OrgStore) : Type 0 where
  org : Organization
  found : Map.get s.orgs o ≡ some org
  in_range : org.shares + g.total < u64_mod
  after : s' ≡ record s {
    orgs = Map.insert s.orgs o (Organization.set_shares org (org.shares + g.total));
    members = credit_all o g.vec s.members;
  }

Issued-IsOwned :
    (o : ℕ) (g : WeightedVector) (s s' : OrgStore)
    → IsOwned s
    → g.total ≡ sum g.vec
    → Issued o g s s'
    → IsOwned s'
Issued-IsOwned o g s s' is adds_up i =
    let sums : i.org.shares ≡ held o s.members = is.owned o i.org i.found in
    let range : i.org.shares + g.total < u64_mod = i.in_range in
    rw i.after (
      update-Owned is o s.org_id_nonce (Organization.set_shares i.org (i.org.shares + g.total))
        (credit_all o g.vec s.members) (omega arith) (known-le is o i.org i.found)
        (omega (arith, held-credit_all o g.vec s.members (omega arith))) range
        (credit_all-Unique o g.vec s.members is.unique) (credit_all-SameOthers o g.vec s))

module _ (T : Config) (origin : T.Origin) (o : ℕ) (accounts : List (ℕ × ℕ))
    (s : Runtime T.Ledger) where
  abbrev genesis : WeightedVector
  genesis = from_vec accounts

  abbrev shape : verify_shape genesis ≡ true
  shape = verify_shape-from_vec accounts

  batch_issue_shares-org :
      (x : Organization)
      → Map.get s.org.orgs o ≡ some x
      → ltb (x.shares + genesis.total) u64_mod ≡ true
      → ((batch_issue_shares T origin o accounts s).1.org ≡ s.org)
        ⊎ ((batch_issue_shares T origin o accounts s).1.org ≡ record s.org {
          orgs = Map.insert s.org.orgs o (Organization.set_shares x (x.shares + genesis.total));
          members = credit_all o genesis.vec s.org.members;
        })
  unfolding batch_issue_shares
  batch_issue_shares-org x e fits =
      let at : ltb (base o s + genesis.total) u64_mod ≡ true = rw e fits in
      ground (arith, batch_issue-ok o genesis shape s at, batch_issue-org o genesis shape s at)

  batch_issue_shares-Issued :
      ((batch_issue_shares T origin o accounts s).1.org ≡ s.org)
      ⊎ Issued o genesis s.org (batch_issue_shares T origin o accounts s).1.org
  batch_issue_shares-Issued = elim (Option-cases (Map.get s.org.orgs o)) [
    | inl e ↦ inl (unfold batch_issue_shares in ground arith)
    | inr (x, e) ↦ elim (Bool-cases (ltb (x.shares + genesis.total) u64_mod)) [
      | inl fits ↦ elim (batch_issue_shares-org x e fits) [
        | inl same ↦ inl same
        | inr new ↦ inr (record { org = x; found = e; in_range = ground arith; after = new })
      ]
      | inr over ↦
          let at : ltb (base o s + genesis.total) u64_mod ≡ false = rw e over in
          inl
            (unfold batch_issue_shares in ground (arith, batch_issue_overflow o genesis shape s at))
    ]
  ]

  -- `batch_issue_shares` keeps the invariant on every branch, where the shares of the batch, without
  -- the repetitions that `from_vec` drops, sum up to less than 2^64.
  pub batch_issue_shares-IsOwned :
      IsOwned s.org
      → sum genesis.vec < u64_mod
      → IsOwned (batch_issue_shares T origin o accounts s).1.org
  batch_issue_shares-IsOwned is fits = elim batch_issue_shares-Issued [
    | inl same ↦ rw same is
    | inr issued ↦ Issued-IsOwned o genesis s.org _ is (from_vec-total accounts fits) issued
  ]
