-- ===== src/Org/Ownership/Invariant.antt =====
-- The invariant, and the general step that keeps it.
use sunshine_node.Prelude.{
  ℕ, ◌≤◌, ◌<◌, ◌≡◌, ◌≢◌, sym, ◌∙◌, subst, inl, inr, some, none, arith, ◌==◌, Bool-cases, ==_iff,
}
use sunshine_node.Word.{u64_mod}
use sunshine_node.Storage.Map
use sunshine_node.Storage.Map.{Map}
use sunshine_node.Storage.DoubleMap
use sunshine_node.Storage.DoubleMap.{DoubleMap, Unique}
use sunshine_node.Util.Organization.{Organization}
use sunshine_node.Util.Share.{ShareProfile}
use sunshine_node.Runtime.{OrgStore}
use sunshine_node.Org.Holdings.{held}

-- Over the nonce, the organizations and the members: no member is listed twice, every organization
-- has the shares that its members hold, and above the nonce there is nothing.
pub record Owned (nonce : ℕ) (orgs : Map Organization) (members : DoubleMap ShareProfile)
    : Type 0 where
  pub unique : Unique members
  pub owned : (o : ℕ) (x : Organization) → Map.get orgs o ≡ some x → x.shares ≡ held o members
  pub bounded : (o : ℕ) (x : Organization) → Map.get orgs o ≡ some x → x.shares < u64_mod
  pub unused : (o : ℕ) → nonce < o → Map.get orgs o ≡ none
  pub empty : (o who : ℕ) → nonce < o → DoubleMap.get members o who ≡ none

abbrev pub IsOwned : OrgStore → Type 0
IsOwned s = Owned s.org_id_nonce s.orgs s.members

-- What a write to one organization and its members leaves alone.
pub record SameOthers (o : ℕ) (m m' : DoubleMap ShareProfile) : Type 0 where
  pub same_held : (j : ℕ) → o ≢ j → held j m' ≡ held j m
  pub same_members : (j w : ℕ) → o ≢ j → DoubleMap.get m' j w ≡ DoubleMap.get m j w

module _ {nonce : ℕ} {orgs : Map Organization} {members : DoubleMap ShareProfile}
    (is : Owned nonce orgs members) where
  pub known-le : (o : ℕ) (x : Organization) → Map.get orgs o ≡ some x → o ≤ nonce
  known-le o x h = ground (arith, is.unused o)

  -- An organization is written, with members that hold its shares; nothing else changes.
  pub update-Owned :
      (o nonce' : ℕ) (x : Organization) (members' : DoubleMap ShareProfile)
      → nonce ≤ nonce'
      → o ≤ nonce'
      → x.shares ≡ held o members'
      → x.shares < u64_mod
      → Unique members'
      → SameOthers o members members'
      → Owned nonce' (Map.insert orgs o x) members'
  update-Owned o nonce' x members' grows le eq lt u others = record {
    unique = u;
    owned = λ j y h. elim (Bool-cases (o == j)) [
      | inl self ↦
          subst (λ k. y.shares ≡ held k members') ((==_iff o j).0 self)
            (ground (arith, Map.get-insert orgs o j x))
      | inr other ↦
          is.owned j y (ground (arith, Map.get-insert orgs o j x))
          ∙ sym (others.same_held j (λ e. ground arith))
    ];
    bounded = λ j y h. elim (Bool-cases (o == j)) [
      | inl self ↦ ground (arith, Map.get-insert orgs o j x)
      | inr other ↦ is.bounded j y (ground (arith, Map.get-insert orgs o j x))
    ];
    unused = λ j above. ground (arith, Map.get-insert orgs o j x, is.unused j (omega arith));
    empty = λ j w above. others.same_members j w (omega arith) ∙ is.empty j w (omega arith);
  }
