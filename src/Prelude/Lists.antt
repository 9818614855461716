-- ===== src/Prelude/Lists.antt =====
-- Lists measured by native numbers, and Rust's `Vec::dedup`.
use Prim.Native.Nat.{ℕ, suc}
use mathlib.Core.Bool.{Bool}
use mathlib.Core.List.{List, [], ◌∷◌}
use sunshine_node.Prelude.Tests.{if◌then◌else◌}

module _ {ℓ} {A : Type ℓ} where
  abbrev pub length : List A → ℕ
  length [] = 0
  length (x ∷ xs) = suc (length xs)

  -- A predicate of every element.
  abbrev pub All {κ} : (A → Type κ) → List A → Type κ
  All P [] = Unit
  All P (x ∷ xs) = P x × All P xs

  module _ (same : A → A → Bool) where
    unfoldable pub dedup_from : A → List A → List A
    dedup_from a [] = a ∷ []
    dedup_from a (b ∷ xs) = if same a b then dedup_from a xs else a ∷ dedup_from b xs

    -- `Vec::dedup`: removes consecutive repeated elements, and keeps the first of each run.
    unfoldable pub dedup : List A → List A
    unfolding dedup_from
    dedup [] = []
    dedup (a ∷ xs) = dedup_from a xs
