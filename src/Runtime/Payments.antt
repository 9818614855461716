-- ===== src/Runtime/Payments.antt =====
-- Payments out of one account, one after the other: what a loop of transfers does when none fails.
use sunshine_node.Prelude.{ℕ, ◌≡◌, List, [], ◌∷◌, ◌++◌, arith}
use sunshine_node.Dispatch.{ok}
use sunshine_node.Exec.{Exec}

module _ {L : Type 0} (transfer : ℕ → ℕ → ℕ → Exec L (Unit {0})) (from : ℕ) where
  -- `transfer` accepts each payment of the list, of an account and an amount, in their order, and
  -- they lead from one ledger to the other.
  abbrev pub Paid : L → List (ℕ × ℕ) → L → Type 0
  Paid l [] l' = l' ≡ l
  Paid l ((to, amount) ∷ rest) l' =
      ((transfer from to amount l).0 ≡ ok tt) × Paid (transfer from to amount l).1 rest l'

  -- One more payment at the end.
  pub Paid-last :
      (ps : List (ℕ × ℕ)) (to amount : ℕ) (l l' : L)
      → Paid l ps l'
      → (transfer from to amount l').0 ≡ ok tt
      → Paid l (ps ++ ((to, amount) ∷ [])) (transfer from to amount l').1
  Paid-last [] to amount l l' e accepted = ground (arith, e, accepted)
  Paid-last (p ∷ ps) to amount l l' paid accepted =
      (paid.0, Paid-last ps to amount (transfer from p.0 p.1 l).1 l' paid.1 accepted)
