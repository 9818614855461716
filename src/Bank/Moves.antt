-- ===== src/Bank/Moves.antt =====
-- The life of a spend proposal as a step relation, and a store whose proposals follow it.
use sunshine_node.Prelude.{
  ℕ, ◌≡◌, refl, sym, ◌∙◌, subst, inl, inr, some, none, arith, ◌==◌, ◌&&◌, Bool-cases,
  some-injective,
}
use sunshine_node.Storage.Map
use sunshine_node.Storage.DoubleMap
use sunshine_node.Storage.DoubleMap.{DoubleMap, get-iter_prefix}
use sunshine_node.Dispatch.{Result}
use sunshine_node.Util.Bank.{SpendProposal, SpendState, set_state}
use sunshine_node.Runtime.{BankStore}
use sunshine_node.Bank.Spend.{executed_if}

-- The states that a spend can go to.
pub data Moves : SpendState → SpendState → Type 0 where
  stay : {a : SpendState} → Moves a a
  vote : (v : ℕ) → Moves SpendState.waiting_for_approval (SpendState.voting v)
  approve : (r : Result (Unit {0})) → Moves SpendState.waiting_for_approval (executed_if r)
  settle : (v : ℕ) (r : Result (Unit {0})) → Moves (SpendState.voting v) (executed_if r)

-- A spend that was approved stays as it is.
abbrev pub IsFinal : SpendState → Type 0
IsFinal SpendState.waiting_for_approval = ⊥
IsFinal (SpendState.voting v) = ⊥
IsFinal SpendState.approved_but_not_executed = Unit
IsFinal SpendState.approved_and_executed = Unit

pub Moves-final : {a b : SpendState} → Moves a b → IsFinal a → b ≡ a
Moves-final stay f = refl
Moves-final (vote v) f = elim f [ ]
Moves-final (approve r) f = elim f [ ]
Moves-final (settle v r) f = elim f [ ]

-- One proposal after an operation: the same payment, and a state that it may go to.
pub record Follows (p p' : SpendProposal) : Type 0 where
  pub same_id : p'.id ≡ p.id
  pub same_amount : p'.amount ≡ p.amount
  pub same_dest : p'.dest ≡ p.dest
  pub moves : Moves p.state p'.state

pub Follows-refl : (p : SpendProposal) → Follows p p
Follows-refl p = record { same_id = refl; same_amount = refl; same_dest = refl; moves = stay }

-- Every proposal is still there, and has followed the relation.
abbrev pub Progress : BankStore → BankStore → Type 0
Progress s s' =
    (b i : ℕ) (p : SpendProposal)
    → DoubleMap.get s.spend_proposals b i ≡ some p
    → (p' : SpendProposal) × (DoubleMap.get s'.spend_proposals b i ≡ some p') × Follows p p'

pub Progress-refl : (s : BankStore) → Progress s s
Progress-refl s b i p h = (p, h, Follows-refl p)

-- A write of a state that the proposal may go to.
pub Progress-set :
    (s : BankStore) (b i : ℕ) (p : SpendProposal) (state : SpendState)
    → DoubleMap.get s.spend_proposals b i ≡ some p
    → Moves p.state state
    → Progress s
        (record s { spend_proposals = DoubleMap.insert s.spend_proposals b i (set_state p state) })
Progress-set s b i p state found moves c j q h = elim (Bool-cases (b == c && i == j)) [
  | inl self ↦ (
    set_state p state,
    ground (arith, DoubleMap.get-insert s.spend_proposals b i c j (set_state p state)),
    subst (λ x. Follows x (set_state p state))
        (some-injective _ _ (sym found ∙ ground (arith, found, h)))
        (record { same_id = refl; same_amount = refl; same_dest = refl; moves = moves }),
  )
  | inr other ↦ (
    q,
    ground (arith, DoubleMap.get-insert s.spend_proposals b i c j (set_state p state)),
    Follows-refl q,
  )
]

-- A proposal under an identifier that is free takes the place of none.
pub Progress-add :
    (s : BankStore) (nonces : Map.Map ℕ) (b i : ℕ) (p : SpendProposal)
    → DoubleMap.get s.spend_proposals b i ≡ none
    → Progress s (record s {
      spend_nonce_map = nonces;
      spend_proposals = DoubleMap.insert s.spend_proposals b i p;
    })
Progress-add s nonces b i p free c j q h =
    (q, ground (arith, DoubleMap.get-insert s.spend_proposals b i c j p, h, free), Follows-refl q)
