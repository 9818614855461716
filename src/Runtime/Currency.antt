-- ===== src/Runtime/Currency.antt =====
-- What the documentation of frame_support's `Currency` says of the balances.
use sunshine_node.Prelude.{ℕ, ◌+◌, ◌≤◌, ◌<◌, ◌≡◌, ◌≢◌}
use sunshine_node.Word.{u128_mod}
use sunshine_node.Dispatch.{DispatchError, ok, err}
use sunshine_node.Runtime.Host.{Config}

-- `T` moves `x` from `a` to `b`: from the ledger `l` to `l'`.
pub record Moved (T : Config) (a b x : ℕ) (l l' : T.Ledger) : Type 0 where
  pub sent : a ≢ b → T.total_balance l' a + x ≡ T.total_balance l a
  pub received : a ≢ b → T.total_balance l' b ≡ T.total_balance l b + x
  pub to_itself : a ≡ b → T.total_balance l' a ≡ T.total_balance l a
  pub others : (c : ℕ) → c ≢ a → c ≢ b → T.total_balance l' c ≡ T.total_balance l c

-- What is taken from an account and put into another is there, unless it is less than the
-- existential deposit.
pub record CurrencyLaws (T : Config) (existential_deposit : ℕ) : Type 0 where
  pub bounded : (l : T.Ledger) (a : ℕ) → T.total_balance l a < u128_mod
  pub transfer_ok :
      (a b x : ℕ) (l : T.Ledger)
      → (T.transfer a b x l).0 ≡ ok tt
      → Moved T a b x l (T.transfer a b x l).1
  pub transfer_err :
      (a b x : ℕ) (l : T.Ledger) (e : DispatchError)
      → (T.transfer a b x l).0 ≡ err e
      → (T.transfer a b x l).1 ≡ l
  pub withdraw_others :
      (a x : ℕ) (l : T.Ledger) (c : ℕ)
      → c ≢ a
      → T.total_balance (T.withdraw a x l).1 c ≡ T.total_balance l c
  pub deposited :
      (a b x : ℕ) (l : T.Ledger)
      → (T.withdraw a x l).0 ≡ ok tt
      → a ≢ b
      → existential_deposit ≤ x
      → T.total_balance (T.resolve_creating b x (T.withdraw a x l).1) b ≡ T.total_balance l b + x
  pub resolve_others :
      (a x : ℕ) (l : T.Ledger) (c : ℕ)
      → c ≢ a
      → T.total_balance (T.resolve_creating a x l) c ≡ T.total_balance l c
