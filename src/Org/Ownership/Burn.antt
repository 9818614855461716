-- ===== src/Org/Ownership/Burn.antt =====
-- `burn` and `burn_shares` keep the invariant.
use sunshine_node.Prelude.{
  ℕ, ◌+◌, ◌≤◌, ◌<◌, ◌≡◌, inl, inr, ◌⊎◌, some, false, arith, ◌==◌, Bool-cases, Option-cases, leb,
  if◌then◌else◌,
}
use sunshine_node.Word.{u64_mod, sub64, sub64-eq}
use sunshine_node.Storage.Map
use sunshine_node.Storage.DoubleMap
use sunshine_node.Storage.DoubleMap.{DoubleMap, Unique, insert-Unique, remove-Unique}
use sunshine_node.Util.Organization
use sunshine_node.Util.Organization.{Organization}
use sunshine_node.Util.Share
use sunshine_node.Util.Share.{ShareProfile, is_zero}
use sunshine_node.Runtime.{OrgStore, Runtime, Config}
use sunshine_node.Org.Issuance.{burn}
use sunshine_node.Org.Calls.{burn_shares}
use sunshine_node.Org.Holdings.{
  held, held-insert, held-insert_ne, held-remove, held-remove_ne, total-le-held,
}
use sunshine_node.Org.Ownership.Invariant.{IsOwned, SameOthers, known-le, update-Owned}

-- The members after `amount` of the profile `p` is burned: a profile with nothing left is removed.
abbrev pub debit : ℕ → DoubleMap ShareProfile → ℕ → ShareProfile → ℕ → DoubleMap ShareProfile
debit o m who p amount =
    let p' = Share.subtract_shares p amount in
    if is_zero p' then DoubleMap.remove m o who else DoubleMap.insert m o who p'

module _ (o who amount : ℕ) (p : ShareProfile) (m : DoubleMap ShareProfile) (u : Unique m)
    (found : DoubleMap.get m o who ≡ some p) (enough : amount ≤ p.total)
    (small : p.total < u64_mod) where
  pub held-debit : held o (debit o m who p amount) + amount ≡ held o m
  held-debit = elim (Bool-cases (sub64 p.total amount == 0)) [
    | inl gone ↦ rw gone (ground (arith, held-remove o who m p u found, sub64-eq p.total amount))
    | inr left ↦ rw left (
        omega (
          arith,
          held-insert o who (Share.subtract_shares p amount) m p found,
          sub64-eq p.total amount,
        ))
  ]

  debit-Unique : Unique (debit o m who p amount)
  debit-Unique = elim (Bool-cases (sub64 p.total amount == 0)) [
    | inl gone ↦ rw gone (remove-Unique m o who u)
    | inr left ↦ rw left (insert-Unique m o who _ u)
  ]

  debit-SameOthers : SameOthers o m (debit o m who p amount)
  debit-SameOthers = elim (Bool-cases (sub64 p.total amount == 0)) [
    | inl gone ↦ rw gone (record {
      same_held = λ j ne. held-remove_ne o who m j ne;
      same_members = λ j w ne. ground (arith, DoubleMap.get-remove m o who j w);
    })
    | inr left ↦ rw left (record {
      same_held = λ j ne. held-insert_ne o who _ m j ne;
      same_members = λ j w ne.
          ground (arith, DoubleMap.get-insert m o who j w (Share.subtract_shares p amount));
    })
  ]

-- What a successful burn found, and what it leaves.
pub record Burned (o who : ℕ) (s s' : OrgStore) : Type 0 where
  pub org : Organization
  pub profile : ShareProfile
  pub amount : ℕ
  pub org_found : Map.get s.orgs o ≡ some org
  pub profile_found : DoubleMap.get s.members o who ≡ some profile
  pub enough : amount ≤ profile.total
  pub issued : amount ≤ org.shares
  pub after : s' ≡ record s {
    orgs = Map.insert s.orgs o (Organization.subtract_shares org amount);
    members = debit o s.members who profile amount;
  }

module _ (T : Config) (o who : ℕ) (s : Runtime T.Ledger) where
  burn-Burned-some :
      (amount : ℕ)
      → ((burn T o who (some amount) false s).1.org ≡ s.org)
        ⊎ Burned o who s.org (burn T o who (some amount) false s).1.org
  unfolding burn
  burn-Burned-some amount = elim (Option-cases (Map.get s.org.orgs o)) [
    | inl e ↦ inl (ground arith)
    | inr (x, e) ↦ elim (Option-cases (DoubleMap.get s.org.members o who)) [
      | inl f ↦ inl (ground arith)
      | inr (p, f) ↦ elim (Bool-cases (leb amount p.total)) [
        | inl g ↦ elim (Bool-cases (leb amount x.shares)) [
          | inl h ↦ inr (record {
            org = x;
            profile = p;
            amount = amount;
            org_found = e;
            profile_found = f;
            enough = ground arith;
            issued = ground arith;
            after = ground arith;
          })
          | inr h ↦ inl (ground arith)
        ]
        | inr g ↦ inl (ground arith)
      ]
    ]
  ]

Burned-IsOwned : (o who : ℕ) (s s' : OrgStore) → IsOwned s → Burned o who s s' → IsOwned s'
Burned-IsOwned o who s s' is b =
    let sums : b.org.shares ≡ held o s.members = is.owned o b.org b.org_found in
    let fits : b.org.shares < u64_mod = is.bounded o b.org b.org_found in
    let small : b.profile.total < u64_mod =
      omega (arith, total-le-held o who s.members b.profile b.profile_found) in
    rw b.after (
      update-Owned is o s.org_id_nonce (Organization.subtract_shares b.org b.amount)
        (debit o s.members who b.profile b.amount) (omega arith) (known-le is o b.org b.org_found)
        (omega (
          arith,
          sub64-eq b.org.shares b.amount fits b.issued,
          held-debit o who b.amount b.profile s.members is.unique b.profile_found b.enough small,
        ))
        (omega (arith, sub64-eq b.org.shares b.amount fits b.issued))
        (debit-Unique o who b.amount b.profile s.members is.unique b.profile_found b.enough small)
        (debit-SameOthers o who b.amount b.profile s.members is.unique b.profile_found b.enough
          small))

module _ (T : Config) (origin : T.Origin) (o who amount : ℕ) (s : Runtime T.Ledger) where
  burn_shares-org :
      ((burn_shares T origin o who amount s).1.org ≡ s.org)
      ⊎ ((burn_shares T origin o who amount s).1.org ≡ (burn T o who (some amount) false s).1.org)
  unfolding burn_shares
  burn_shares-org = ground arith

  -- `burn_shares` keeps the invariant on every branch, with no premise about the amount.
  pub burn_shares-IsOwned : IsOwned s.org → IsOwned (burn_shares T origin o who amount s).1.org
  burn_shares-IsOwned is = elim burn_shares-org [
    | inl same ↦ rw same is
    | inr called ↦ elim (burn-Burned-some T o who s amount) [
      | inl same ↦ rw (called, same) is
      | inr burned ↦ rw called (Burned-IsOwned o who s.org _ is burned)
    ]
  ]
