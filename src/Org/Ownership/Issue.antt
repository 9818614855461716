-- ===== src/Org/Ownership/Issue.antt =====
-- `issue` and `issue_shares` keep the invariant.
use sunshine_node.Prelude.{
  ℕ, ◌+◌, ◌<◌, ◌≡◌, inl, inr, ◌⊎◌, some, none, true, false, arith, Option-cases,
}
use sunshine_node.Word.{u64_mod, add64-eq}
use sunshine_node.Storage.Map
use sunshine_node.Storage.DoubleMap
use sunshine_node.Storage.DoubleMap.{insert-Unique}
use sunshine_node.Dispatch.{is_err, ok}
use sunshine_node.Util.Organization
use sunshine_node.Util.Organization.{Organization}
use sunshine_node.Runtime.{OrgStore, Runtime, Config}
use sunshine_node.Org.Base.{outstanding_shares, is_organization_supervisor}
use sunshine_node.Org.Issuance.{issue, with_issued}
use sunshine_node.Org.Calls.{issue_shares}
use sunshine_node.Org.Holdings.{held, credit, held-credit, held-insert_ne}
use sunshine_node.Org.Ownership.Invariant.{IsOwned, SameOthers, known-le, update-Owned}

credit-SameOthers :
    (o : ℕ) (s : OrgStore) (who amount : ℕ) → SameOthers o s.members (credit o s.members who amount)
credit-SameOthers o s who amount = record {
  same_held = λ j ne. held-insert_ne o who _ s.members j ne;
  same_members = λ j w ne. ground (
    arith,
    DoubleMap.get-insert s.members o who j w
        (with_issued (DoubleMap.get s.members o who) (o, who) amount),
  );
}

module _ {L : Type 0} (o who amount : ℕ) (s : Runtime L) where
  issue-org_some :
      (x : Organization)
      → Map.get s.org.orgs o ≡ some x
      → (issue o who amount false s).1.org ≡ record s.org {
        orgs = Map.insert s.org.orgs o (Organization.add_shares x amount);
        members = credit o s.org.members who amount;
      }
  unfolding issue
  issue-org_some x h = ground arith

  -- An organization that does not exist gets no shares and no member.
  pub issue_unknown : Map.get s.org.orgs o ≡ none → (issue o who amount false s).1 ≡ s
  unfolding issue
  issue_unknown h = ground arith

  pub issue-IsOwned :
      IsOwned s.org
      → outstanding_shares s.org o + amount < u64_mod
      → IsOwned (issue o who amount false s).1.org
  unfolding outstanding_shares
  issue-IsOwned is room = elim (Option-cases (Map.get s.org.orgs o)) [
    | inl e ↦ rw (issue_unknown e) is
    | inr (x, e) ↦
        let fits : x.shares + amount < u64_mod = ground arith in
        let sums : x.shares ≡ held o s.org.members = is.owned o x e in
        rw (issue-org_some x e) (
          update-Owned is o s.org.org_id_nonce (Organization.add_shares x amount)
            (credit o s.org.members who amount) (omega arith) (known-le is o x e)
            (omega (
              arith,
              add64-eq x.shares amount,
              held-credit o s.org.members who amount (omega arith),
            ))
            (omega (arith, add64-eq x.shares amount))
            (insert-Unique s.org.members o who _ is.unique) (credit-SameOthers o s.org who amount))
  ]

module _ (T : Config) (origin : T.Origin) (o who amount : ℕ) (s : Runtime T.Ledger) where
  issue_shares-org :
      ((issue_shares T origin o who amount s).1.org ≡ s.org)
      ⊎ ((issue_shares T origin o who amount s).1.org ≡ (issue o who amount false s).1.org)
  unfolding issue_shares
  issue_shares-org = ground arith

  -- `issue_shares` keeps the invariant on every branch: each organization's shares are those that
  -- its members hold. Its premise is that the shares issued do not take the total past 2^64, which
  -- the call does not check.
  pub issue_shares-IsOwned :
      IsOwned s.org
      → outstanding_shares s.org o + amount < u64_mod
      → IsOwned (issue_shares T origin o who amount s).1.org
  issue_shares-IsOwned is room = elim issue_shares-org [
    | inl same ↦ rw same is
    | inr issued ↦ rw issued (issue-IsOwned o who amount s is room)
  ]

  -- Who signs without being the supervisor of the organization cannot issue its shares: the call is
  -- an error, and the state is as it was.
  pub issue_shares_unauthorized :
      (issuer : ℕ)
      → T.ensure_signed origin ≡ ok issuer
      → is_organization_supervisor s.org o issuer ≡ false
      → ((issue_shares T origin o who amount s).1 ≡ s)
        × (is_err (issue_shares T origin o who amount s).0 ≡ true)
  unfolding issue_shares
  issue_shares_unauthorized issuer signed no_right = ground arith
