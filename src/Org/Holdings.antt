-- ===== src/Org/Holdings.antt =====
-- The shares that the members of an organization hold, as a sum over the map of the members, under
-- the writes to that map.
use sunshine_node.Prelude.{
  ℕ, ◌+◌, ◌≤◌, ◌<◌, ◌≡◌, ◌≢◌, refl, ◌∙◌, inl, inr, Option-cases, some, none, List, [], ◌∷◌, arith,
  ◌==◌, if◌then◌else◌,
}
use sunshine_node.Word.{u64_mod, add64-eq}
use sunshine_node.Storage.DoubleMap.{
  DoubleMap, Unique, get, insert, remove, get-insert, insert-Unique,
}
use sunshine_node.Util.Share.{ShareProfile, new_shares, add_shares, sum}
use sunshine_node.Org.Issuance.{with_issued}

unfoldable pub held : ℕ → DoubleMap ShareProfile → ℕ
held o [] = 0
held o ((i, _, p) ∷ m) = (if i == o then p.total else 0) + held o m

module _ (o who : ℕ) (new : ShareProfile) where
  pub held-insert :
      (m : DoubleMap ShareProfile) (old : ShareProfile)
      → get m o who ≡ some old
      → held o (insert m o who new) + old.total ≡ held o m + new.total
  unfolding held get insert
  held-insert [] old h = cc
  held-insert ((i, j, p) ∷ m) old h = ground (arith, held-insert m old)

  pub held-insert_new :
      (m : DoubleMap ShareProfile)
      → get m o who ≡ none
      → held o (insert m o who new) ≡ held o m + new.total
  unfolding held get insert
  held-insert_new [] h = ground arith
  held-insert_new ((i, j, p) ∷ m) h = ground (arith, held-insert_new m)

  pub held-insert_ne :
      (m : DoubleMap ShareProfile) (other : ℕ)
      → o ≢ other
      → held other (insert m o who new) ≡ held other m
  unfolding held insert
  held-insert_ne [] other h = ground arith
  held-insert_ne ((i, j, p) ∷ m) other h = ground (arith, held-insert_ne m other h)

module _ (o who : ℕ) where
  pub total-le-held :
      (m : DoubleMap ShareProfile) (p : ShareProfile) → get m o who ≡ some p → p.total ≤ held o m
  unfolding held get
  total-le-held [] p h = cc
  total-le-held ((i, j, q) ∷ m) p h = ground (arith, total-le-held m p)

  held-remove_absent :
      (m : DoubleMap ShareProfile) → get m o who ≡ none → held o (remove m o who) ≡ held o m
  unfolding held get remove
  held-remove_absent [] h = refl
  held-remove_absent ((i, j, q) ∷ m) h = ground (arith, held-remove_absent m)

  pub held-remove :
      (m : DoubleMap ShareProfile) (p : ShareProfile)
      → Unique m
      → get m o who ≡ some p
      → held o (remove m o who) + p.total ≡ held o m
  unfolding held get remove
  held-remove [] p u h = cc
  held-remove ((i, j, q) ∷ m) p u h = ground (arith, held-remove m p u.1, held-remove_absent m)

  pub held-remove_ne :
      (m : DoubleMap ShareProfile) (other : ℕ)
      → o ≢ other
      → held other (remove m o who) ≡ held other m
  unfolding held remove
  held-remove_ne [] other h = refl
  held-remove_ne ((i, j, q) ∷ m) other h = ground (arith, held-remove_ne m other h)

pub held_of_none :
    (o : ℕ) (m : DoubleMap ShareProfile) → ((who : ℕ) → get m o who ≡ none) → held o m ≡ 0
unfolding held get
held_of_none o [] h = refl
held_of_none o ((i, j, p) ∷ m) h =
    ground (arith, h j, held_of_none o m (λ w. ground (arith, h j, h w)))

-- The members after an amount is issued to one account, and to each of a list.
abbrev pub credit : ℕ → DoubleMap ShareProfile → ℕ → ℕ → DoubleMap ShareProfile
credit o m who amount = insert m o who (with_issued (get m o who) (o, who) amount)

unfoldable pub credit_all : ℕ → List (ℕ × ℕ) → DoubleMap ShareProfile → DoubleMap ShareProfile
credit_all o [] m = m
credit_all o ((who, amount) ∷ rest) m = credit_all o rest (credit o m who amount)

pub held-credit :
    (o : ℕ) (m : DoubleMap ShareProfile) (who amount : ℕ)
    → held o m + amount < u64_mod
    → held o (credit o m who amount) ≡ held o m + amount
held-credit o m who amount h = elim (Option-cases (get m o who)) [
  | inl e ↦ rw e (held-insert_new o who (new_shares (o, who) amount) m e)
  | inr (p, e) ↦ rw e (
      omega (
        arith,
        held-insert o who (add_shares p amount) m p e,
        total-le-held o who m p e,
        add64-eq p.total amount,
      ))
]

pub held-credit_all :
    (o : ℕ) (vec : List (ℕ × ℕ)) (m : DoubleMap ShareProfile)
    → held o m + sum vec < u64_mod
    → held o (credit_all o vec m) ≡ held o m + sum vec
unfolding credit_all
held-credit_all o [] m h = omega arith
held-credit_all o ((who, amount) ∷ rest) m h = omega (
  arith,
  held-credit o m who amount (omega arith),
  held-credit_all o rest (credit o m who amount)
      (rw (held-credit o m who amount (omega arith)) (omega arith)),
)

pub held-credit_all_ne :
    (o other : ℕ) (vec : List (ℕ × ℕ)) (m : DoubleMap ShareProfile)
    → o ≢ other
    → held other (credit_all o vec m) ≡ held other m
unfolding credit_all
held-credit_all_ne o other [] m ne = refl
held-credit_all_ne o other ((who, amount) ∷ rest) m ne =
    held-credit_all_ne o other rest (credit o m who amount) ne
    ∙ held-insert_ne o who (with_issued (get m o who) (o, who) amount) m other ne

pub get-credit_all_ne :
    (o other w : ℕ) (vec : List (ℕ × ℕ)) (m : DoubleMap ShareProfile)
    → o ≢ other
    → get (credit_all o vec m) other w ≡ get m other w
unfolding credit_all
get-credit_all_ne o other w [] m ne = refl
get-credit_all_ne o other w ((who, amount) ∷ rest) m ne =
    get-credit_all_ne o other w rest (credit o m who amount) ne
    ∙ ground (arith, get-insert m o who other w (with_issued (get m o who) (o, who) amount))

pub credit_all-Unique :
    (o : ℕ) (vec : List (ℕ × ℕ)) (m : DoubleMap ShareProfile)
    → Unique m
    → Unique (credit_all o vec m)
unfolding credit_all
credit_all-Unique o [] m u = u
credit_all-Unique o ((who, amount) ∷ rest) m u =
    credit_all-Unique o rest (credit o m who amount) (insert-Unique m o who _ u)
