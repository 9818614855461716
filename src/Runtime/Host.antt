-- ===== src/Runtime/Host.antt =====
-- What the pallets take from code outside the repository: frame_system's origins, the currency,
-- `Permill` of sp_arithmetic, `OrderedSet` of orml_utilities; and their configured constants.
use sunshine_node.Prelude.{ℕ, List, ◌∷◌}
use sunshine_node.Dispatch.{Result}
use sunshine_node.Exec.{Exec, modify}
use sunshine_node.Runtime.Events.{Event}
use sunshine_node.Runtime.Stores.{Runtime}

pub record Config : Type 1 where
  pub Origin : Type 0
  pub ensure_signed : Origin → Result ℕ
  -- the currency: its state, what an account has, and `transfer` with
  -- `ExistenceRequirement::KeepAlive`, from the first account to the second
  pub Ledger : Type 0
  pub free_balance : Ledger → ℕ → ℕ
  pub total_balance : Ledger → ℕ → ℕ
  pub transfer : ℕ → ℕ → ℕ → Exec Ledger (Unit {0})
  -- the same with `ExistenceRequirement::AllowDeath`
  pub transfer_allow_death : ℕ → ℕ → ℕ → Exec Ledger (Unit {0})
  -- `withdraw` and `resolve_creating`: what leaves an account, and the same put into another
  pub withdraw : ℕ → ℕ → Exec Ledger (Unit {0})
  pub resolve_creating : ℕ → ℕ → Ledger → Ledger
  pub deposit_creating : ℕ → ℕ → Ledger → Ledger
  pub reserve : ℕ → ℕ → Exec Ledger (Unit {0})
  pub unreserve : ℕ → ℕ → Ledger → Ledger
  -- `OrderedSet::from(Vec)`
  pub ordered_set : List ℕ → List ℕ
  -- `Permill`, in parts per million
  pub from_rational_approximation : ℕ → ℕ → ℕ
  pub mul_floor : ℕ → ℕ → ℕ
  pub mul_ceil : ℕ → ℕ → ℕ
  -- `T::BigBank::get().into_sub_account(id)`
  pub into_sub_account : ℕ → ℕ
  pub max_treasury_per_org : ℕ
  pub min_deposit : ℕ

-- What a pallet's function may do to the chain.
abbrev pub Call : Config → Type 0 → Type 0
Call T A = Exec (Runtime T.Ledger) A

module _ {L : Type 0} where
  abbrev pub deposit_event : Event → Exec (Runtime L) (Unit {0})
  deposit_event e = modify (λ s. record s { events = e ∷ s.events })

  -- A call on the currency alone.
  abbrev pub on_ledger {ℓ} : {A : Type ℓ} → Exec L A → Exec (Runtime L) A
  on_ledger m s = let (r, ledger) = m s.ledger in (r, record s { ledger = ledger })
