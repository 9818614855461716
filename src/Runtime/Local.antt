-- ===== src/Runtime/Local.antt =====
-- The state of a pallet that only it writes: its storage and the events it has deposited, the newest
-- first, beside the part of the chain that it works on.
use sunshine_node.Prelude.{ℕ, List, ◌∷◌}
use sunshine_node.Exec.{Exec, modify}

pub record Pallet (Base Store Event : Type 0) : Type 0 where
  pub base : Base
  pub store : Store
  pub posted : List Event

-- The part that a pallet works on which only moves money.
pub record Money (Ledger : Type 0) : Type 0 where
  pub block_number : ℕ
  pub ledger : Ledger

module _ {Base Store Event : Type 0} where
  abbrev pub on_base : {A : Type 0} → Exec Base A → Exec (Pallet Base Store Event) A
  on_base m s = let (r, base) = m s.base in (r, record s { base = base })

  abbrev pub on_store : (Store → Store) → Exec (Pallet Base Store Event) (Unit {0})
  on_store f = modify (λ s. record s { store = f s.store })

  abbrev pub post : Event → Exec (Pallet Base Store Event) (Unit {0})
  post e = modify (λ s. record s { posted = e ∷ s.posted })

module _ {Ledger Store Event : Type 0} where
  abbrev pub on_money : {A : Type 0} → Exec Ledger A → Exec (Pallet (Money Ledger) Store Event) A
  on_money m = on_base (λ b. let (r, ledger) = m b.ledger in (r, record b { ledger = ledger }))
