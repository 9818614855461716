-- ===== src/Kickback/Drain.antt =====
-- The division of the money of an event: it moves money alone, and nothing is lost by rounding.
use sunshine_node.Prelude.{
  ℕ, ◌%◌, ◌≡◌, refl, inl, inr, List, [], ◌∷◌, ◌++◌, map, length, ◌==◌, Bool-cases,
}
use sunshine_node.Word.{u32_mod, sub128}
use sunshine_node.Dispatch.{Result-cases}
use sunshine_node.Runtime.{Config}
use sunshine_node.Kickback.{State, KickbackTrait, pay_each, drain_shared, drain_into_accounts}

abbrev pub each_gets : ℕ → List ℕ → List (ℕ × ℕ)
each_gets given accounts = map (λ acc. (acc, given)) accounts

-- The payments of a division: to a single account all, to several the same to each and the rest to
-- the recipient of the remainder.
abbrev pub division : List ℕ → ℕ → ℕ → ℕ → List (ℕ × ℕ)
division [] recipient given rest = (recipient, rest) ∷ []
division (a ∷ []) recipient given rest = (a, given) ∷ []
division (a ∷ b ∷ others) recipient given rest =
    each_gets given (a ∷ b ∷ others) ++ ((recipient, rest) ∷ [])

module _ (T : Config) (K : KickbackTrait) (from : ℕ) where
  pay_each-store :
      (due : ℕ) (accounts : List ℕ) (total : ℕ) (s : State T.Ledger)
      → (pay_each T K from due accounts total s).1.store ≡ s.store
  unfolding pay_each
  pay_each-store due [] total s = refl
  pay_each-store due (acc ∷ rest) total s =
      elim (Result-cases (T.transfer_allow_death from acc due s.base.ledger).0) [
        | inr (e, refused) ↦ rw refused refl
        | inl paid ↦ rw paid.1 (pay_each-store due rest (sub128 total due) _)
      ]

  module _ (recipient : ℕ) (s : State T.Ledger) where
    abbrev total : ℕ
    total = T.total_balance s.base.ledger from

    abbrev due : ℕ → ℕ
    due n = T.mul_floor (T.from_rational_approximation 1 n) total

    shared-store :
        (accounts : List ℕ) (n : ℕ)
        → (drain_shared T K from accounts recipient total n s).1.store ≡ s.store
    shared-store accounts n =
        let paying = pay_each T K from (due n) accounts total s in
        elim (Result-cases paying.0) [
          | inr (e, refused) ↦ rw refused (pay_each-store (due n) accounts total s)
          | inl (left, paid) ↦
              elim (Result-cases
                (T.transfer_allow_death from recipient left paying.1.base.ledger).0) [
                  | inr (e, kept) ↦ rw (paid, kept) (pay_each-store (due n) accounts total s)
                  | inl given ↦ rw (paid, given.1) (pay_each-store (due n) accounts total s)
                ]
        ]

    pub drain-store :
        (accounts : List ℕ) → (drain_into_accounts T K from accounts recipient s).1.store ≡ s.store
    unfolding drain_into_accounts
    drain-store [] = shared-store [] 0
    drain-store (a ∷ others) = elim (Bool-cases (length (a ∷ others) % u32_mod == 1)) [
      | inr several ↦ rw several (shared-store (a ∷ others) (length (a ∷ others) % u32_mod))
      | inl one ↦ elim (Result-cases (T.transfer_allow_death from a total s.base.ledger).0) [
        | inr (e, refused) ↦ rw (one, refused) refl
        | inl paid ↦ rw (one, paid.1) refl
      ]
    ]
