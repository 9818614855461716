-- ===== src/Org/Removal.antt =====
-- The recursive removal of an organization: it ends on a tree, and on a cycle it does not.
-- `register_sub_organization` does not keep an organization from being its own parent.
use sunshine_node.Prelude.{
  ℕ, zero, suc, ◌+◌, ◌<◌, ◌≡◌, refl, ◌∙◌, inl, inr, false, Option, some, none, List, [], ◌∷◌, arith,
  All, true, Bool-cases, Option-cases,
}
use sunshine_node.Storage.Map
use sunshine_node.Storage.DoubleMap
use sunshine_node.Storage.DoubleMap.{DoubleMap}
use sunshine_node.Dispatch.{Result, ok, err}
use sunshine_node.Util.Organization.{Relation}
use sunshine_node.Runtime.{Runtime}
use sunshine_node.Org.Ownership.Invariant.{IsOwned}
use sunshine_node.Org.Base.{keys, id_is_available}
use sunshine_node.Org.Register.{
  Partial, collect, removed_with_event, recursive_remove_organization, remove_organization,
}

-- Every edge of the tree goes from a higher rank to a lower one.
abbrev pub IsRanked : (ℕ → ℕ) → DoubleMap Relation → Type 0
IsRanked rank [] = Unit
IsRanked rank ((parent, child, r) ∷ tree) = (rank child < rank parent) × IsRanked rank tree

children-lower :
    (rank : ℕ → ℕ) (o : ℕ) (tree : DoubleMap Relation)
    → IsRanked rank tree
    → All (λ child. rank child < rank o) (keys (DoubleMap.iter_prefix tree o))
unfolding DoubleMap.iter_prefix
children-lower rank o [] is = tt
children-lower rank o ((parent, child, r) ∷ tree) is =
    ground (arith, children-lower rank o tree is.1)

module _ {L : Type 0} where
  -- It comes back, with the tree as it was.
  pub record Returns (tree : DoubleMap Relation) (r : Option (Result (Unit {0}) × Runtime L))
      : Type 0 where
    pub result : Result (Unit {0})
    pub state : Runtime L
    pub returned : r ≡ some (result, state)
    pub same_tree : state.org.org_tree ≡ tree

  removed-tree : (o : ℕ) (s : Runtime L) → (removed_with_event o s).1.org.org_tree ≡ s.org.org_tree
  unfolding removed_with_event
  removed-tree o s = ground arith

  module _ (tree : DoubleMap Relation) (f : ℕ → Partial L) where
    collect-step :
        (child : ℕ) (rest : List ℕ) (s t : Runtime L) (r : Result (Unit {0}))
        → f child s ≡ some (r, t)
        → t.org.org_tree ≡ tree
        → Returns tree (collect f rest t)
        → Returns tree (collect f (child ∷ rest) s)
    unfolding collect
    collect-step child rest s t (ok x) e same after = rw (collect, e) after
    collect-step child rest s t (err x) e same after =
        rw (collect, e) (record { result = err x; state = t; returned = refl; same_tree = same })

    collect-Returns :
        (l : List ℕ)
        → All (λ child. (s : Runtime L) → s.org.org_tree ≡ tree → Returns tree (f child s)) l
        → (s : Runtime L) → s.org.org_tree ≡ tree
        → Returns tree (collect f l s)
    unfolding collect
    collect-Returns [] each s same = record {
      result = ok tt;
      state = s;
      returned = refl;
      same_tree = same;
    }
    collect-Returns (child ∷ rest) each s same =
        let first = each.0 s same in
        collect-step child rest s first.state first.result first.returned first.same_tree
          (collect-Returns rest each.1 first.state first.same_tree)

  -- The call itself, once its children have come back.
  remove-step :
      (fuel o : ℕ) (tree : DoubleMap Relation) (s t : Runtime L) (r : Result (Unit {0}))
      → id_is_available s.org o ≡ false
      → collect
          (recursive_remove_organization fuel)
          (keys (DoubleMap.iter_prefix s.org.org_tree o))
          s
        ≡ some (r, t)
      → t.org.org_tree ≡ tree
      → Returns tree (recursive_remove_organization (suc fuel) o s)
  unfolding recursive_remove_organization
  remove-step fuel o tree s t (ok x) used e same =
      rw (recursive_remove_organization, used, e)
        (record {
          result = (removed_with_event o t).0;
          state = (removed_with_event o t).1;
          returned = refl;
          same_tree = removed-tree o t ∙ same;
        })
  remove-step fuel o tree s t (err x) used e same =
      rw (recursive_remove_organization, used, e)
        (record { result = err x; state = t; returned = refl; same_tree = same })

  each-Returns :
      (rank : ℕ → ℕ) (bound : ℕ) (tree : DoubleMap Relation) (f : ℕ → Partial L)
      → ((o : ℕ) (s : Runtime L) → rank o < bound → s.org.org_tree ≡ tree → Returns tree (f o s))
      → (l : List ℕ) → All (λ child. rank child < bound) l
      → All (λ child. (s : Runtime L) → s.org.org_tree ≡ tree → Returns tree (f child s)) l
  each-Returns rank bound tree f back [] low = tt
  each-Returns rank bound tree f back (child ∷ rest) low =
      (λ s same. back child s low.0 same, each-Returns rank bound tree f back rest low.1)

  remove-Returns :
      (rank : ℕ → ℕ) (tree : DoubleMap Relation)
      → IsRanked rank tree
      → (fuel o : ℕ) (s : Runtime L) → rank o < fuel
      → s.org.org_tree ≡ tree
      → Returns tree (recursive_remove_organization fuel o s)
  unfolding recursive_remove_organization
  remove-Returns rank tree is zero o s low same = absurd (omega arith)
  remove-Returns rank tree is (suc fuel) o s low same =
      elim (Bool-cases (id_is_available s.org o)) [
        | inl free ↦
            rw (recursive_remove_organization, free)
              (record { result = _; state = s; returned = refl; same_tree = same })
        | inr used ↦
            let children =
              collect-Returns tree (recursive_remove_organization fuel)
                (keys (DoubleMap.iter_prefix s.org.org_tree o))
                (each-Returns rank (rank o) tree (recursive_remove_organization fuel)
                  (λ c t lower eq. remove-Returns rank tree is fuel c t (omega arith) eq)
                  (keys (DoubleMap.iter_prefix s.org.org_tree o))
                  (rw same (children-lower rank o tree is)))
                s same in
            remove-step fuel o tree s children.state children.result used children.returned
              children.same_tree
      ]

  -- Where every edge of the tree leads to a lower rank, the removal comes back: the rank of the
  -- organization and one more is enough fuel.
  pub recursive_remove-total :
      (rank : ℕ → ℕ) (o : ℕ) (s : Runtime L)
      → IsRanked rank s.org.org_tree
      → (r : Result (Unit {0})) × (t : Runtime L) × (recursive_remove_organization (rank o + 1) o s
          ≡ some (r, t))
  recursive_remove-total rank o s is =
      let back = remove-Returns rank s.org.org_tree is (rank o + 1) o s (omega arith) refl in
      (back.result, back.state, back.returned)

  -- Organizations that are registered and have a first child among themselves are never removed:
  -- the recursion runs out of any amount of fuel.
  pub cyclic_removal :
      (P : ℕ → Type 0) (s : Runtime L)
      → ((o : ℕ)
          → P o
          → (child : ℕ) × (rest : List ℕ) × (id_is_available s.org o ≡ false)
            × (keys (DoubleMap.iter_prefix s.org.org_tree o) ≡ child ∷ rest)
            × P child)
      → (fuel o : ℕ) → P o
      → recursive_remove_organization fuel o s ≡ none
  unfolding recursive_remove_organization collect
  cyclic_removal P s cycle zero o is = refl
  cyclic_removal P s cycle (suc fuel) o is =
      let (child, rest, used, first, again) = cycle o is in
      rw
        (
          recursive_remove_organization,
          used,
          first,
          collect,
          cyclic_removal P s cycle fuel child again,
        )
        refl

-- Removing an organization keeps the invariant, whether it exists or not, and afterwards it does not
-- exist; its members stay listed under its identifier.
pub remove_organization-IsOwned :
    {L : Type 0} (o : ℕ) (s : Runtime L)
    → IsOwned s.org
    → IsOwned (remove_organization o s).1.org
      × (id_is_available (remove_organization o s).1.org o ≡ true)
      × ((remove_organization o s).1.org.members ≡ s.org.members)
unfolding remove_organization id_is_available
remove_organization-IsOwned o s is = elim (Option-cases (Map.get s.org.orgs o)) [
  | inl e ↦ rw e (is, rw e refl, refl)
  | inr (x, e) ↦ rw e (
    record {
      unique = is.unique;
      owned = λ j y h. is.owned j y (ground (arith, Map.get-remove s.org.orgs o j));
      bounded = λ j y h. is.bounded j y (ground (arith, Map.get-remove s.org.orgs o j));
      unused = λ j above. ground (arith, Map.get-remove s.org.orgs o j, is.unused j above);
      empty = is.empty;
    },
    ground (arith, Map.get-remove s.org.orgs o o),
    refl,
  )
]
