-- ===== src/Vote/Tally/Voters.antt =====
-- The electorates that a sound org storage gives.
use sunshine_node.Prelude.{
  ℕ, ◌<◌, ◌≡◌, refl, ap, ◌∙◌, subst, inl, inr, some, none, some-injective, List, [], ◌∷◌, map,
  length, arith, Option-cases, dedup, dedup_from, Option, Bool, true, false, is_some,
}
use sunshine_node.Word.{u32_mod, u64_mod}
use sunshine_node.Storage.Map
use sunshine_node.Storage.Map.{Map, Distinct}
use sunshine_node.Storage.DoubleMap
use sunshine_node.Storage.DoubleMap.{DoubleMap, iter_prefix-Distinct}
use sunshine_node.Util.Organization.{OrgRep}
use sunshine_node.Util.Share.{ShareProfile, same_entry, from_vec, sum}
use sunshine_node.Runtime.{Config, OrgStore}
use sunshine_node.Org
use sunshine_node.Org.{account_shares}
use sunshine_node.Org.Holdings.{held}
use sunshine_node.Org.Ownership.Invariant.{IsOwned}
use sunshine_node.Org.Ownership.Batch.{from_vec-total}
use sunshine_node.Vote.Tally.Electorate.{Electorate, IsElectorate, electorate}

-- A list with no account twice has no repeated entry to remove.
dedup_from-Distinct :
    (a : ℕ × ℕ) (l : Map ℕ) → Map.get l a.0 ≡ none → Distinct l → dedup_from same_entry a l ≡ a ∷ l
unfolding dedup_from Map.get
dedup_from-Distinct a [] absent d = refl
dedup_from-Distinct a (b ∷ l) absent d = ground (arith, dedup_from-Distinct b l d.0 d.1)

dedup-Distinct : (l : Map ℕ) → Distinct l → dedup same_entry l ≡ l
unfolding dedup
dedup-Distinct [] d = refl
dedup-Distinct (a ∷ l) d = dedup_from-Distinct a l d.0 d.1

-- The accounts of an organization with their shares.
get-account_shares-none :
    (m : Map ShareProfile) (who : ℕ)
    → Map.get m who ≡ none
    → Map.get (map account_shares m) who ≡ none
unfolding Map.get
get-account_shares-none [] who h = refl
get-account_shares-none (e ∷ m) who h = ground (arith, get-account_shares-none m who)

account_shares-Distinct : (m : Map ShareProfile) → Distinct m → Distinct (map account_shares m)
account_shares-Distinct [] d = tt
account_shares-Distinct (e ∷ m) d =
    (get-account_shares-none m e.0 d.0, account_shares-Distinct m d.1)

sum-account_shares :
    (o : ℕ) (m : DoubleMap ShareProfile)
    → sum (map account_shares (DoubleMap.iter_prefix m o)) ≡ held o m
unfolding DoubleMap.iter_prefix held
sum-account_shares o [] = refl
sum-account_shares o ((i, j, p) ∷ m) = ground (arith, sum-account_shares o m)

shares_of : OrgStore → ℕ → Map ℕ
shares_of s o = map account_shares (DoubleMap.iter_prefix s.members o)

module _ (s : OrgStore) (is : IsOwned s) (o : ℕ) where
  from_vec-members : (from_vec (shares_of s o)).vec ≡ shares_of s o
  unfolding from_vec shares_of
  from_vec-members = dedup-Distinct (map account_shares (DoubleMap.iter_prefix s.members o)) (
      account_shares-Distinct (DoubleMap.iter_prefix s.members o)
        (iter_prefix-Distinct s.members o is.unique))

  sum-members : sum (from_vec (shares_of s o)).vec ≡ held o s.members
  unfolding shares_of
  sum-members = ap sum from_vec-members ∙ sum-account_shares o s.members

  -- In a sound storage the shares of an organization are the electorate of a weighted vote: each
  -- member once, and the total the shares of the organization.
  pub weighted-IsElectorate :
      (T : Config) (e : Electorate) → electorate T s (OrgRep.weighted o) ≡ some e → IsElectorate e
  unfolding Org.get_membership_with_shape shares_of
  weighted-IsElectorate T e h = elim (Option-cases (Map.get s.orgs o)) [
    | inl unknown ↦ absurd (ground arith)
    | inr (x, known) ↦
        let fits : sum (from_vec (shares_of s o)).vec < u64_mod =
          omega (arith, sum-members, is.owned o x known, is.bounded o x known) in
        subst IsElectorate (some-injective _ _ (rw known at h)) (record {
          distinct = rw from_vec-members (
              account_shares-Distinct (DoubleMap.iter_prefix s.members o)
                (iter_prefix-Distinct s.members o is.unique));
          adds_up = from_vec-total (shares_of s o) fits;
          fits = rw (from_vec-total (shares_of s o) fits) fits;
        })
  ]

-- The voters of a list, one signal each.
abbrev pub one_each : List ℕ → Map ℕ
one_each l = map (λ who. (who, 1)) l

-- What the documentation of `OrderedSet` says: it has the elements of the vector, none of them twice.
pub record OrderedSetLaws (ordered_set : List ℕ → List ℕ) : Type 0 where
  pub no_repeats : (l : List ℕ) → Distinct (one_each (ordered_set l))
  pub same_elements :
      (l : List ℕ) (who : ℕ) → Map.get (one_each (ordered_set l)) who ≡ Map.get (one_each l) who

sum_of_ones : (l : List ℕ) → sum (one_each l) ≡ length l
sum_of_ones [] = refl
sum_of_ones (x ∷ l) = omega (arith, sum_of_ones l)

-- The keys of a map, one signal each: those that the map has.
abbrev pub one_if : Bool → Option ℕ
one_if true = some 1
one_if false = none

get-one_each-keys :
    {V : Type 0} (m : Map V) (who : ℕ)
    → Map.get (one_each (Org.keys m)) who ≡ one_if (is_some (Map.get m who))
unfolding Map.get
get-one_each-keys [] who = refl
get-one_each-keys (e ∷ m) who = ground (arith, get-one_each-keys m who)

-- The electorate of an equal vote has one signal for every account that has a profile in the
-- organization, and none for anybody else; nobody stands in it twice, and its total is the sum. It
-- asks that a u32 counts the members, and that `OrderedSet` has the elements of a vector without
-- repetition.
pub equal-IsElectorate :
    (T : Config) (s : OrgStore) (o : ℕ) (e : Electorate)
    → OrderedSetLaws T.ordered_set
    → length (T.ordered_set (Org.keys (DoubleMap.iter_prefix s.members o))) < u32_mod
    → electorate T s (OrgRep.equal o) ≡ some e
    → IsElectorate e
      × ((who : ℕ) → Map.get e.group who ≡ one_if (is_some (DoubleMap.get s.members o who)))
unfolding Org.get_group
equal-IsElectorate T s o e laws few h = elim (Option-cases (Map.get s.orgs o)) [
  | inl unknown ↦ absurd (ground arith)
  | inr (x, known) ↦
      let listed = Org.keys (DoubleMap.iter_prefix s.members o) in
      let members : List ℕ = T.ordered_set listed in
      subst
        (λ (k : Electorate).
          IsElectorate k
          × ((who : ℕ) → Map.get k.group who ≡ one_if (is_some (DoubleMap.get s.members o who))))
        (some-injective _ _ (rw known at h))
        (
          record {
            distinct = laws.no_repeats listed;
            adds_up = omega (arith, sum_of_ones members);
            fits = omega arith;
          },
          λ who.
              laws.same_elements listed who
              ∙ get-one_each-keys (DoubleMap.iter_prefix s.members o) who
              ∙ ap (λ p. one_if (is_some p)) (DoubleMap.get-iter_prefix s.members o who),
        )
]
