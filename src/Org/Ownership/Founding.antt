-- ===== src/Org/Ownership/Founding.antt =====
-- The registration of an organization keeps the invariant, and gives it its members' shares.
use sunshine_node.Prelude.{
  ℕ, ◌+◌, ◌<◌, ◌≡◌, ◌∙◌, ap, inl, inr, Option, none, List, true, arith, ◌==◌, length, map, dedup,
  ltb,
}
use sunshine_node.Word.{u64_mod, add64}
use sunshine_node.Storage.Map
use sunshine_node.Storage.Fresh.{next_free, next_id_fresh}
use sunshine_node.Dispatch.{ok, Result-cases}
use sunshine_node.Util.Organization.{Organization, OrganizationSource}
use sunshine_node.Util.Share.{WeightedVector, from_vec, verify_shape, verify_shape-from_vec, sum}
use sunshine_node.Runtime.{OrgStore, Runtime, Config}
use sunshine_node.Org.Issuance.{batch_issue}
use sunshine_node.Org.Register.{weighted_accounts, register_organization, register_sub_organization}
use sunshine_node.Org.Calls.{register, new_flat_org, new_weighted_org}
use sunshine_node.Org.Holdings.{held, credit_all, held-credit_all, held_of_none, credit_all-Unique}
use sunshine_node.Org.Ownership.Invariant.{IsOwned, update-Owned}
use sunshine_node.Org.Ownership.Batch.{
  base, credit_all-SameOthers, from_vec-total, batch_issue-ok, batch_issue-org,
}

-- The identifiers do not run out.
abbrev pub HasRoom : OrgStore → Type 0
HasRoom s = s.org_id_nonce + 1 + length s.orgs < u64_mod

abbrev pub next_id : OrgStore → ℕ
next_id s = next_free (length s.orgs + 1) s.orgs (add64 s.org_id_nonce 1)

module _ {L : Type 0} (parent : Option ℕ) (source : OrganizationSource) (sudo : Option ℕ)
    (constitution : ℕ) (s : Runtime L) (is : IsOwned s.org) (room : HasRoom s.org) where
  abbrev genesis : WeightedVector
  genesis = from_vec (weighted_accounts source)

  abbrev new_org : Organization
  new_org = record {
    sudo = sudo;
    id = next_id s.org;
    shares = genesis.total;
    constitution = constitution;
  }

  abbrev numbered : Runtime L
  numbered = record s { org = record s.org { org_id_nonce = next_id s.org } }

  nonce-lt : s.org.org_id_nonce < next_id s.org
  nonce-lt = (next_id_fresh s.org.orgs s.org.org_id_nonce room).0

  free : Map.get s.org.orgs (next_id s.org) ≡ none
  free = (next_id_fresh s.org.orgs s.org.org_id_nonce room).1

  shape : verify_shape genesis ≡ true
  shape = verify_shape-from_vec (weighted_accounts source)

  none_before : held (next_id s.org) s.org.members ≡ 0
  none_before =
      held_of_none (next_id s.org) s.org.members (λ w. is.empty (next_id s.org) w nonce-lt)

  module _ (fits : sum genesis.vec < u64_mod) where
    in_range : ltb (base (next_id s.org) numbered + genesis.total) u64_mod ≡ true
    in_range = rw free (ground (arith, from_vec-total (weighted_accounts source) fits))

    batch_ok : (batch_issue (next_id s.org) genesis numbered).0 ≡ ok genesis.total
    batch_ok =
        batch_issue-ok (next_id s.org) genesis shape numbered in_range
        ∙ rw free (ap (λ (n : ℕ). ok n) (omega arith))

    batch_org : (batch_issue (next_id s.org) genesis numbered).1.org ≡ record s.org {
      org_id_nonce = next_id s.org;
      members = credit_all (next_id s.org) genesis.vec s.org.members;
    }
    batch_org = batch_issue-org (next_id s.org) genesis shape numbered in_range

    -- Registration returns the next identifier, writes the organization with the shares of its
    -- source under it, and issues these to the members.
    pub register-ok : (register parent source sudo constitution s).0 ≡ ok (next_id s.org)
    unfolding register_organization register_sub_organization
    register-ok = ground (arith, batch_ok, batch_org)

    pub register-orgs :
        (register parent source sudo constitution s).1.org.orgs
        ≡ Map.insert s.org.orgs (next_id s.org) new_org
    unfolding register_organization register_sub_organization
    register-orgs = ground (arith, batch_ok, batch_org)

    pub register-members :
        (register parent source sudo constitution s).1.org.members
        ≡ credit_all (next_id s.org) genesis.vec s.org.members
    unfolding register_organization register_sub_organization
    register-members = ground (arith, batch_ok, batch_org)

    register-nonce : (register parent source sudo constitution s).1.org.org_id_nonce ≡ next_id s.org
    unfolding register_organization register_sub_organization
    register-nonce = ground (arith, batch_ok, batch_org)

    pub register-IsOwned : IsOwned (register parent source sudo constitution s).1.org
    register-IsOwned =
        rw (register-nonce, register-orgs, register-members)
          (update-Owned is (next_id s.org) (next_id s.org) new_org
            (credit_all (next_id s.org) genesis.vec s.org.members) (omega (arith, nonce-lt))
            (omega arith)
            (omega (
              arith,
              from_vec-total (weighted_accounts source) fits,
              none_before,
              held-credit_all (next_id s.org) genesis.vec s.org.members
                  (omega (arith, none_before)),
            ))
            (omega (arith, from_vec-total (weighted_accounts source) fits))
            (credit_all-Unique (next_id s.org) genesis.vec s.org.members is.unique)
            (credit_all-SameOthers (next_id s.org) genesis.vec s.org))

module _ (T : Config) (origin : T.Origin) (sudo : Option ℕ) (parent : Option ℕ) (constitution : ℕ)
    (s : Runtime T.Ledger) (is : IsOwned s.org) (room : HasRoom s.org) where
  -- `new_weighted_org` keeps the invariant on every branch, for an organization and for a suborganization,
  -- where identifiers are left and the shares sum up to less than 2^64.
  pub new_weighted_org-IsOwned :
      (weighted : List (ℕ × ℕ))
      → sum (from_vec weighted).vec < u64_mod
      → IsOwned (new_weighted_org T origin sudo parent constitution weighted s).1.org
  unfolding new_weighted_org
  new_weighted_org-IsOwned weighted fits = elim (Result-cases (T.ensure_signed origin)) [
    | inl (caller, signed) ↦ rw signed (
        rw
          (register-ok parent (OrganizationSource.accounts_weighted weighted) sudo constitution s is
            room fits)
          (register-IsOwned parent (OrganizationSource.accounts_weighted weighted) sudo constitution
            s is room fits))
    | inr (e, unsigned) ↦ rw unsigned is
  ]

  -- `new_flat_org` keeps the invariant on every branch, for an organization and for a suborganization,
  -- where identifiers are left and the members, one share each, sum up to less than 2^64.
  pub new_flat_org-IsOwned :
      (members : List ℕ)
      → sum (from_vec (map (λ acc. (acc, 1)) (dedup ◌==◌ members))).vec < u64_mod
      → IsOwned (new_flat_org T origin sudo parent constitution members s).1.org
  unfolding new_flat_org
  new_flat_org-IsOwned members fits = elim (Result-cases (T.ensure_signed origin)) [
    | inl (caller, signed) ↦ rw signed (
        rw
          (register-ok parent (OrganizationSource.accounts (dedup ◌==◌ members)) sudo constitution s
            is room fits)
          (register-IsOwned parent (OrganizationSource.accounts (dedup ◌==◌ members)) sudo
            constitution s is room fits))
    | inr (e, unsigned) ↦ rw unsigned is
  ]
