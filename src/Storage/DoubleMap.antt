-- ===== src/Storage/DoubleMap.antt =====
-- `StorageDoubleMap` with an optional value: entries under two keys, and the entries under a
-- first key.
use sunshine_node.Prelude.{
  ℕ, ◌+◌, length, inl, inr, Bool-cases, ◌≡◌, refl, ◌&&◌, Option, none, some, List, [], ◌∷◌, arith,
  ◌==◌, if◌then◌else◌,
}
use sunshine_node.Storage.Map
use sunshine_node.Storage.Map.{Map}

abbrev pub DoubleMap {ℓ} : Type ℓ → Type ℓ
DoubleMap V = List (ℕ × ℕ × V)

module _ {ℓ} {V : Type ℓ} where
  unfoldable pub get : DoubleMap V → ℕ → ℕ → Option V
  get [] a b = none
  get ((i, j, v) ∷ m) a b = if i == a && j == b then some v else get m a b

  unfoldable pub insert : DoubleMap V → ℕ → ℕ → V → DoubleMap V
  insert [] a b v = (a, b, v) ∷ []
  insert ((i, j, w) ∷ m) a b v =
      let rest = insert m a b v in if i == a && j == b then (a, b, v) ∷ m else (i, j, w) ∷ rest

  unfoldable pub remove : DoubleMap V → ℕ → ℕ → DoubleMap V
  remove [] a b = []
  remove ((i, j, w) ∷ m) a b =
      let rest = remove m a b in if i == a && j == b then rest else (i, j, w) ∷ rest

  -- `iter_prefix`, and `iter` with a filter on the first key.
  unfoldable pub iter_prefix : DoubleMap V → ℕ → Map V
  iter_prefix [] a = []
  iter_prefix ((i, j, v) ∷ m) a =
      let rest = iter_prefix m a in if i == a then (j, v) ∷ rest else rest

  -- `remove_prefix`
  unfoldable pub remove_prefix : DoubleMap V → ℕ → DoubleMap V
  remove_prefix [] a = []
  remove_prefix ((i, j, v) ∷ m) a =
      let rest = remove_prefix m a in if i == a then rest else (i, j, v) ∷ rest

  pub get-insert :
      (m : DoubleMap V) (a b c d : ℕ) (v : V)
      → get (insert m a b v) c d ≡ (if a == c && b == d then some v else get m c d)
  unfolding get insert
  get-insert [] a b c d v = refl
  get-insert ((i, j, w) ∷ m) a b c d v = ground (arith, get-insert m a b c d v)

  pub get-remove :
      (m : DoubleMap V) (a b c d : ℕ)
      → get (remove m a b) c d ≡ (if a == c && b == d then none else get m c d)
  unfolding get remove
  get-remove [] a b c d = ground arith
  get-remove ((i, j, w) ∷ m) a b c d = ground (arith, get-remove m a b c d)

  pub get-remove_prefix :
      (m : DoubleMap V) (a c d : ℕ)
      → get (remove_prefix m a) c d ≡ (if a == c then none else get m c d)
  unfolding get remove_prefix
  get-remove_prefix [] a c d = ground arith
  get-remove_prefix ((i, j, w) ∷ m) a c d = ground (arith, get-remove_prefix m a c d)

  pub get-iter_prefix : (m : DoubleMap V) (a b : ℕ) → Map.get (iter_prefix m a) b ≡ get m a b
  unfolding get iter_prefix Map.get
  get-iter_prefix [] a b = refl
  get-iter_prefix ((i, j, v) ∷ m) a b = ground (arith, get-iter_prefix m a b)

module _ {ℓ} {V : Type ℓ} where
  -- A new entry, and the removal of a prefix, seen from the entries under a first key.
  pub length-iter_prefix-insert :
      (m : DoubleMap V) (a b c : ℕ) (v : V)
      → get m a b ≡ none
      → length (iter_prefix (insert m a b v) c)
        ≡ (if a == c then length (iter_prefix m c) + 1 else length (iter_prefix m c))
  unfolding get insert iter_prefix
  length-iter_prefix-insert [] a b c v new = ground arith
  length-iter_prefix-insert ((i, j, w) ∷ m) a b c v new =
      ground (arith, length-iter_prefix-insert m a b c v)

  pub length-iter_prefix-remove_prefix :
      (m : DoubleMap V) (a c : ℕ)
      → length (iter_prefix (remove_prefix m a) c)
        ≡ (if a == c then 0 else length (iter_prefix m c))
  unfolding remove_prefix iter_prefix
  length-iter_prefix-remove_prefix [] a c = ground arith
  length-iter_prefix-remove_prefix ((i, j, w) ∷ m) a c =
      ground (arith, length-iter_prefix-remove_prefix m a c)

-- A property of the first keys of all entries.
abbrev pub AllFirst {ℓ κ} : {V : Type ℓ} → (ℕ → Type κ) → DoubleMap V → Type κ
AllFirst P [] = Unit
AllFirst P ((i, j, v) ∷ m) = P i × AllFirst P m

pub get-AllFirst {ℓ κ} :
    {V : Type ℓ} (P : ℕ → Type κ) (m : DoubleMap V)
    → ((a b : ℕ) (v : V) → get m a b ≡ some v → P a)
    → AllFirst P m
unfolding get
get-AllFirst P [] all = tt
get-AllFirst P ((i, j, v) ∷ m) all = (
  all i j v (ground arith),
  get-AllFirst P m (λ a b w h. elim (Bool-cases (i == a && j == b)) [
    | inl same ↦ all a b v (rw same refl)
    | inr other ↦ all a b w (rw other h)
  ]),
)

-- No pair of keys stands twice.
abbrev pub Unique {ℓ} : {V : Type ℓ} → DoubleMap V → Type ℓ
Unique [] = Unit
Unique ((i, j, v) ∷ m) = (get m i j ≡ none) × Unique m

module _ {ℓ} {V : Type ℓ} where
  pub insert-Unique : (m : DoubleMap V) (a b : ℕ) (v : V) → Unique m → Unique (insert m a b v)
  unfolding insert
  insert-Unique [] a b v u = (unfold get in refl, tt)
  insert-Unique ((i, j, w) ∷ m) a b v u =
      ground (arith, insert-Unique m a b v u.1, get-insert m a b i j v)

  pub remove-Unique : (m : DoubleMap V) (a b : ℕ) → Unique m → Unique (remove m a b)
  unfolding remove
  remove-Unique [] a b u = tt
  remove-Unique ((i, j, w) ∷ m) a b u =
      ground (arith, remove-Unique m a b u.1, get-remove m a b i j)

  pub iter_prefix-Distinct : (m : DoubleMap V) (a : ℕ) → Unique m → Map.Distinct (iter_prefix m a)
  unfolding iter_prefix
  iter_prefix-Distinct [] a u = tt
  iter_prefix-Distinct ((i, j, v) ∷ m) a u =
      ground (arith, iter_prefix-Distinct m a u.1, get-iter_prefix m a j)

pub ruleset double_map_laws = (get-insert, get-remove, get-iter_prefix)
