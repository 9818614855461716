-- ===== src/Util/Share.antt =====
-- utils/src/share.rs: share profiles, and vectors of accounts with their shares.
use sunshine_node.Prelude.{
  ℕ, ◌+◌, ◌<◌, ◌≡◌, Bool, true, false, ◌&&◌, List, [], ◌∷◌, arith, ◌==◌, dedup,
}
use sunshine_node.Word.{u64_mod, add64, sub64, add64-eq}

-- `portion` counts parts per million.
pub record SharePortion : Type 0 where
  pub total : ℕ
  pub portion : ℕ

pub data ProfileState : Type 0 where
  locked unlocked : ProfileState

pub record ShareProfile : Type 0 where
  pub id : ℕ × ℕ
  pub total : ℕ
  pub state : ProfileState

abbrev pub is_zero : ShareProfile → Bool
is_zero p = p.total == 0

abbrev pub new_shares : ℕ × ℕ → ℕ → ShareProfile
new_shares id total = record { id = id; total = total; state = ProfileState.unlocked }

abbrev pub add_shares : ShareProfile → ℕ → ShareProfile
add_shares p amount = record p { total = add64 p.total amount }

abbrev pub subtract_shares : ShareProfile → ℕ → ShareProfile
subtract_shares p amount = record p { total = sub64 p.total amount }

abbrev pub lock : ShareProfile → ShareProfile
lock p = record p { state = ProfileState.locked }

abbrev pub unlock : ShareProfile → ShareProfile
unlock p = record p { state = ProfileState.unlocked }

abbrev is_unlocked_state : ProfileState → Bool
is_unlocked_state ProfileState.locked = false
is_unlocked_state ProfileState.unlocked = true

abbrev pub is_unlocked : ShareProfile → Bool
is_unlocked p = is_unlocked_state p.state

pub record WeightedVector : Type 0 where
  pub total : ℕ
  pub vec : List (ℕ × ℕ)

-- `for ac in vec { sum += ac.1 }`, from a start value.
unfoldable pub sum_from : ℕ → List (ℕ × ℕ) → ℕ
sum_from sum [] = sum
sum_from sum (ac ∷ vec) = sum_from (add64 sum ac.1) vec

abbrev pub same_entry : ℕ × ℕ → ℕ × ℕ → Bool
same_entry a b = a.0 == b.0 && a.1 == b.1

-- `impl From<Vec<(AccountId, Shares)>> for WeightedVector`
unfoldable pub from_vec : List (ℕ × ℕ) → WeightedVector
from_vec genesis = let dg = dedup same_entry genesis in record { total = sum_from 0 dg; vec = dg }

unfoldable pub verify_shape : WeightedVector → Bool
verify_shape w = sum_from 0 w.vec == w.total

-- The shares of a vector, as a number without bound.
abbrev pub sum : List (ℕ × ℕ) → ℕ
sum [] = 0
sum (ac ∷ vec) = ac.1 + sum vec

-- What `from_vec` builds passes `verify_shape`.
pub verify_shape-from_vec : (genesis : List (ℕ × ℕ)) → verify_shape (from_vec genesis) ≡ true
unfolding verify_shape from_vec
verify_shape-from_vec genesis = ground arith

pub sum_from-eq-sum :
    (start : ℕ) (vec : List (ℕ × ℕ))
    → start + sum vec < u64_mod
    → sum_from start vec ≡ start + sum vec
unfolding sum_from
sum_from-eq-sum start [] h = omega arith
sum_from-eq-sum start (ac ∷ vec) h =
    omega (arith, add64-eq start ac.1, sum_from-eq-sum (add64 start ac.1) vec)
