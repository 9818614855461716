-- ===== src/Treasury.antt =====
-- pallets/treasury/src/lib.rs: money is minted for the treasury in every interval of blocks.
use sunshine_node.Prelude.{ℕ, ◌%◌, Option, none, some, ◌∷◌, ◌==◌, if◌then◌else◌}
use sunshine_node.Runtime.{Config, Pallet, Money}

pub data TreasuryEvent : Type 0 where
  treasury_minting : ℕ → ℕ → ℕ → TreasuryEvent

pub record TreasuryStore : Type 0 where
  pub minting_interval : ℕ
  pub mint_amount : ℕ

abbrev pub State : Type 0 → Type 0
State L = Pallet (Money L) TreasuryStore TreasuryEvent

module _ (T : Config) (account_id : ℕ) where
  open T use {free_balance, deposit_creating}

  abbrev minted : State T.Ledger → State T.Ledger
  minted s =
      let ledger = deposit_creating account_id s.store.mint_amount s.base.ledger in
      record s {
        base = record s.base { ledger = ledger };
        posted =
            TreasuryEvent.treasury_minting (free_balance ledger account_id) s.base.block_number
              account_id
            ∷ s.posted;
      }

  -- `none` is the panic of a remainder by zero.
  unfoldable pub on_finalize : State T.Ledger → Option (State T.Ledger)
  on_finalize s =
      if s.store.minting_interval == 0
      then none
      else if s.base.block_number % s.store.minting_interval == 0
      then some (minted s)
      else some s
