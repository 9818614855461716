-- ===== src/Storage/Map.antt =====
-- `StorageMap` with an optional value: an association list with at most one entry for a key that
-- `insert` writes. The order of iteration, by key hash on the chain, is that of the list here.
use sunshine_node.Prelude.{
  ℕ, ◌≡◌, refl, Option, none, some, List, [], ◌∷◌, arith, ◌==◌, if◌then◌else◌,
}

abbrev pub Map {ℓ} : Type ℓ → Type ℓ
Map V = List (ℕ × V)

module _ {ℓ} {V : Type ℓ} where
  unfoldable pub get : Map V → ℕ → Option V
  get [] k = none
  get ((j, v) ∷ m) k = if j == k then some v else get m k

  unfoldable pub insert : Map V → ℕ → V → Map V
  insert [] k v = (k, v) ∷ []
  insert ((j, w) ∷ m) k v = let rest = insert m k v in if j == k then (k, v) ∷ m else (j, w) ∷ rest

  unfoldable pub remove : Map V → ℕ → Map V
  remove [] k = []
  remove ((j, w) ∷ m) k = let rest = remove m k in if j == k then rest else (j, w) ∷ rest

  pub get-insert :
      (m : Map V) (k j : ℕ) (v : V) → get (insert m k v) j ≡ (if k == j then some v else get m j)
  unfolding get insert
  get-insert [] k j v = refl
  get-insert ((i, w) ∷ m) k j v = ground (arith, get-insert m k j v)

  pub get-remove : (m : Map V) (k j : ℕ) → get (remove m k) j ≡ (if k == j then none else get m j)
  unfolding get remove
  get-remove [] k j = ground arith
  get-remove ((i, w) ∷ m) k j = ground (arith, get-remove m k j)

-- No key stands twice.
abbrev pub Distinct {ℓ} : {V : Type ℓ} → Map V → Type ℓ
Distinct [] = Unit
Distinct (e ∷ m) = (get m e.0 ≡ none) × Distinct m

module _ {ℓ} {V : Type ℓ} where
  pub insert-Distinct : (m : Map V) (k : ℕ) (v : V) → Distinct m → Distinct (insert m k v)
  unfolding insert
  insert-Distinct [] k v d = (unfold get in refl, tt)
  insert-Distinct ((j, w) ∷ m) k v d = ground (arith, insert-Distinct m k v d.1, get-insert m k j v)

  pub remove-Distinct : (m : Map V) (k : ℕ) → Distinct m → Distinct (remove m k)
  unfolding remove
  remove-Distinct [] k d = tt
  remove-Distinct ((j, w) ∷ m) k d = ground (arith, remove-Distinct m k d.1, get-remove m k j)

-- Every entry of the first map is what the second one has under its key.
abbrev pub Stored {ℓ} : {V : Type ℓ} → Map V → Map V → Type ℓ
Stored [] m = Unit
Stored ((k, v) ∷ l) m = (get m k ≡ some v) × Stored l m

module _ {ℓ} {V : Type ℓ} where
  Stored-cons : (l m : Map V) (k : ℕ) (v : V) → get l k ≡ none → Stored l m → Stored l ((k, v) ∷ m)
  unfolding get
  Stored-cons [] m k v free st = tt
  Stored-cons ((j, w) ∷ l) m k v free st = ground (arith, Stored-cons l m k v)

  pub Stored-self : (m : Map V) → Distinct m → Stored m m
  unfolding get
  Stored-self [] d = tt
  Stored-self ((k, v) ∷ m) d = (ground arith, Stored-cons m m k v d.0 (Stored-self m d.1))

  pub Stored-insert :
      (l m : Map V) (k : ℕ) (v : V) → get l k ≡ none → Stored l m → Stored l (insert m k v)
  unfolding get
  Stored-insert [] m k v free st = tt
  Stored-insert ((j, w) ∷ l) m k v free st =
      ground (arith, Stored-insert l m k v, get-insert m k j v)

  pub Stored-remove : (l m : Map V) (k : ℕ) → get l k ≡ none → Stored l m → Stored l (remove m k)
  unfolding get
  Stored-remove [] m k free st = tt
  Stored-remove ((j, w) ∷ l) m k free st = ground (arith, Stored-remove l m k, get-remove m k j)

pub ruleset map_laws = (get-insert, get-remove)
