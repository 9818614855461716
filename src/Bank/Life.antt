-- ===== src/Bank/Life.antt =====
-- The operations on spends as one step relation: each follows the life of a spend.
use sunshine_node.Prelude.{ℕ, ◌≡◌, some, sym, subst}
use sunshine_node.Storage.DoubleMap
use sunshine_node.Util.Bank.{SpendProposal}
use sunshine_node.Runtime.{Runtime, Config}
use sunshine_node.Bank.Spend.{
  propose_spend_for, trigger_vote_on_spend_proposal, sudo_approve_spend_proposal,
  poll_spend_proposal,
}
use sunshine_node.Bank.Moves.{Progress, Progress-refl}
use sunshine_node.Bank.Progress.{
  HasSpendRoom, propose_spend-Progress, trigger_vote-Progress, sudo_approve-Progress, poll-Progress,
}

-- One operation on the spends of a bank, by anybody: a proposal, where an identifier is left, a vote
-- that is triggered, an approval by the controller, and a poll of a spend that is stored.
pub data SpendStep (T : Config) (s : Runtime T.Ledger) : Runtime T.Ledger → Type 0 where
  propose :
      (caller b amount dest : ℕ)
      → HasSpendRoom s.bank b
      → SpendStep T s (propose_spend_for caller b amount dest s).1
  trigger : (caller b i : ℕ) → SpendStep T s (trigger_vote_on_spend_proposal T caller b i s).1
  approve : (caller b i : ℕ) → SpendStep T s (sudo_approve_spend_proposal T caller b i s).1
  poll :
      (prop : SpendProposal)
      → DoubleMap.get s.bank.spend_proposals prop.id.0 prop.id.1 ≡ some prop
      → SpendStep T s (poll_spend_proposal T prop s).1
  elsewhere : (t : Runtime T.Ledger) → t.bank ≡ s.bank → SpendStep T s t

-- Whatever operation on spends is done, every stored spend is kept, with the same payment, and its
-- state moves only along the life of a spend.
pub SpendStep-Progress :
    {T : Config} {s t : Runtime T.Ledger} → SpendStep T s t → Progress s.bank t.bank
SpendStep-Progress {T} {s} (propose caller b amount dest room) =
    propose_spend-Progress caller b amount dest s room
SpendStep-Progress {T} {s} (trigger caller b i) = trigger_vote-Progress T b i s caller
SpendStep-Progress {T} {s} (approve caller b i) = sudo_approve-Progress T b i s caller
SpendStep-Progress {T} {s} (poll prop stored) = poll-Progress T prop s stored
SpendStep-Progress {T} {s} (elsewhere t same) =
    subst (λ b. Progress s.bank b) (sym same) (Progress-refl s.bank)
