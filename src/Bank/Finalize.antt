-- ===== src/Bank/Finalize.antt =====
-- The hook at the end of a block: it polls every spend, and each follows the life of a spend.
use sunshine_node.Prelude.{
  ℕ, ◌%◌, ◌≡◌, ◌≢◌, refl, sym, ◌∙◌, subst, inl, inr, some, none, [], ◌∷◌, false, arith, ◌==◌, ◌&&◌,
  Bool-cases, Option-cases,
}
use sunshine_node.Storage.Map
use sunshine_node.Storage.DoubleMap
use sunshine_node.Storage.DoubleMap.{DoubleMap, Unique}
use sunshine_node.Dispatch.{Result, ok, err}
use sunshine_node.Exec.{for_each}
use sunshine_node.Util.Vote.{VoteOutcome}
use sunshine_node.Util.Bank.{SpendProposal, SpendState, set_state}
use sunshine_node.Runtime.{BankStore, Runtime, Config}
use sunshine_node.Vote
use sunshine_node.Bank.Base.{is_bank}
use sunshine_node.Bank.Spend.{executed_if, payment, poll_from, conclude, poll_spend_proposal}
use sunshine_node.Bank.Calls.{poll_entry, on_finalize}
use sunshine_node.Bank.Moves.{Moves, Moves-final, Progress, Progress-refl, Follows, IsFinal}
use sunshine_node.Bank.Progress.{poll-Progress}

executed_if-IsFinal : (r : Result (Unit {0})) → IsFinal (executed_if r)
executed_if-IsFinal (ok x) = tt
executed_if-IsFinal (err e) = tt

after_voting :
    {c : SpendState} (v : ℕ)
    → Moves (SpendState.voting v) c
    → Moves SpendState.waiting_for_approval c
after_voting v Moves.stay = Moves.vote v
after_voting v (Moves.settle w r) = Moves.approve r

Moves-trans : {a b c : SpendState} → Moves a b → Moves b c → Moves a c
Moves-trans Moves.stay n = n
Moves-trans (Moves.vote v) n = after_voting v n
Moves-trans (Moves.approve r) n =
    subst (λ x. Moves SpendState.waiting_for_approval x)
      (sym (Moves-final n (executed_if-IsFinal r))) (Moves.approve r)
Moves-trans (Moves.settle v r) n =
    subst (λ x. Moves (SpendState.voting v) x) (sym (Moves-final n (executed_if-IsFinal r)))
      (Moves.settle v r)

Follows-trans : {p q r : SpendProposal} → Follows p q → Follows q r → Follows p r
Follows-trans f g = record {
  same_id = g.same_id ∙ f.same_id;
  same_amount = g.same_amount ∙ f.same_amount;
  same_dest = g.same_dest ∙ f.same_dest;
  moves = Moves-trans f.moves g.moves;
}

Progress-trans : (s t u : BankStore) → Progress s t → Progress t u → Progress s u
Progress-trans s t u f g b i p h =
    let (q, found, follows) = f b i p h in
    let (r, found', follows') = g b i q found in (r, found', Follows-trans follows follows')

-- A write to one spend of one bank, at most.
abbrev Touches : ℕ → ℕ → BankStore → BankStore → Type 0
Touches b i s s' =
    (c j : ℕ)
    → (b == c && i == j) ≡ false
    → DoubleMap.get s'.spend_proposals c j ≡ DoubleMap.get s.spend_proposals c j

module _ (T : Config) (prop : SpendProposal) (s : Runtime T.Ledger) where
  conclude-Touches :
      (outcome : VoteOutcome)
      → Touches prop.id.0 prop.id.1 s.bank (conclude T outcome prop s).1.bank
  conclude-Touches VoteOutcome.approved c j ne = ground (
    arith,
    DoubleMap.get-insert s.bank.spend_proposals prop.id.0 prop.id.1 c j
        (set_state prop (executed_if (payment T prop.id.0 prop s).0)),
  )
  conclude-Touches VoteOutcome.not_started c j ne = refl
  conclude-Touches VoteOutcome.voting c j ne = refl
  conclude-Touches VoteOutcome.rejected c j ne = refl

  poll_from-Touches :
      (state : SpendState) → Touches prop.id.0 prop.id.1 s.bank (poll_from T state prop s).1.bank
  unfolding Vote.get_vote_outcome
  poll_from-Touches SpendState.waiting_for_approval c j ne = refl
  poll_from-Touches (SpendState.voting v) c j ne =
      elim (Option-cases (Map.get s.vote.vote_states v)) [
        | inl e ↦ rw e refl
        | inr (st, e) ↦ rw e (conclude-Touches st.outcome c j ne)
      ]
  poll_from-Touches SpendState.approved_but_not_executed c j ne = refl
  poll_from-Touches SpendState.approved_and_executed c j ne = refl

  poll-Touches : Touches prop.id.0 prop.id.1 s.bank (poll_spend_proposal T prop s).1.bank
  unfolding poll_spend_proposal
  poll-Touches c j ne = elim (Bool-cases (is_bank s.bank prop.id.0)) [
    | inl f ↦ elim (Option-cases (DoubleMap.get s.bank.spend_proposals prop.id.0 prop.id.1)) [
      | inl e ↦ rw (f, e) refl
      | inr (q, e) ↦ rw (f, e) (poll_from-Touches prop.state c j ne)
    ]
    | inr f ↦ rw f refl
  ]

-- What the loop still has to poll: entries that are in the storage, each under its own identifier.
Pending : DoubleMap SpendProposal → BankStore → Type 0
Pending [] s = Unit
Pending ((b, i, p) ∷ l) s =
    (p.id ≡ (b, i))
    × (DoubleMap.get s.spend_proposals b i ≡ some p)
    × (DoubleMap.get l b i ≡ none)
    × Pending l s

Pending-kept :
    (l : DoubleMap SpendProposal) (b i : ℕ) (s s' : BankStore)
    → DoubleMap.get l b i ≡ none
    → Touches b i s s'
    → Pending l s
    → Pending l s'
unfolding DoubleMap.get Pending
Pending-kept [] b i s s' absent touches pending = tt
Pending-kept ((c, j, q) ∷ l) b i s s' absent touches pending = (
  pending.0,
  touches c j (ground arith) ∙ pending.1,
  pending.2,
  Pending-kept l b i s s' (ground arith) touches pending.3,
)

module _ (T : Config) where
  poll_entry-bank :
      (b i : ℕ) (p : SpendProposal) (s : Runtime T.Ledger)
      → (poll_entry T (b, i, p) s).1.bank ≡ (poll_spend_proposal T p s).1.bank
  unfolding poll_entry
  poll_entry-bank b i p s = ground arith

  poll_entry-ok :
      (b i : ℕ) (p : SpendProposal) (s : Runtime T.Ledger) → (poll_entry T (b, i, p) s).0 ≡ ok tt
  unfolding poll_entry
  poll_entry-ok b i p s = ground arith

  polls-Progress :
      (l : DoubleMap SpendProposal) (s : Runtime T.Ledger)
      → Pending l s.bank
      → Progress s.bank (for_each (poll_entry T) l s).1.bank
  unfolding for_each Pending
  polls-Progress [] s pending = Progress-refl s.bank
  polls-Progress ((b, i, p) ∷ l) s pending =
      let s1 = (poll_entry T (b, i, p) s).1 in
      let same = sym (poll_entry-bank b i p s) in
      let stored =
        subst (λ (k : ℕ × ℕ). DoubleMap.get s.bank.spend_proposals k.0 k.1 ≡ some p) (sym pending.0)
          pending.1 in
      let first = subst (Progress s.bank) same (poll-Progress T p s stored) in
      let touches = subst (Touches b i s.bank) same (
        subst (λ (k : ℕ × ℕ). Touches k.0 k.1 s.bank (poll_spend_proposal T p s).1.bank) pending.0
          (poll-Touches T p s)) in
      rw (poll_entry-ok b i p s) (
        Progress-trans s.bank s1.bank (for_each (poll_entry T) l s1).1.bank first
          (polls-Progress l s1 (Pending-kept l b i s.bank s1.bank pending.2 touches pending.3)))

-- Every spend is stored once, under its own identifier.
pub record IsFiled (m : DoubleMap SpendProposal) : Type 0 where
  pub once : Unique m
  pub own_id : (b i : ℕ) (p : SpendProposal) → DoubleMap.get m b i ≡ some p → p.id ≡ (b, i)

Pending-all :
    (l : DoubleMap SpendProposal) (s : BankStore)
    → Unique l
    → ((b i : ℕ) (p : SpendProposal)
        → DoubleMap.get l b i ≡ some p
        → (p.id ≡ (b, i)) × (DoubleMap.get s.spend_proposals b i ≡ some p))
    → Pending l s
unfolding Pending DoubleMap.get
Pending-all [] s u all = tt
Pending-all ((b, i, p) ∷ l) s u all =
    let own = all b i p (ground arith) in
    (own.0, own.1, u.0, Pending-all l s u.1 (λ c j q h. all c j q (ground (arith, u.0))))

-- Where the polling frequency is not zero and each spend is stored once and under its own identifier,
-- the hook at the end of a block comes back, and every spend is there afterwards, with the same
-- payment, and its state has stayed or has moved along the life of a spend.
pub on_finalize-Progress :
    (T : Config) (s : Runtime T.Ledger)
    → IsFiled s.bank.spend_proposals
    → s.bank.spend_poll_frequency ≢ 0
    → (t : Runtime T.Ledger) × (on_finalize T s ≡ some t) × Progress s.bank t.bank
unfolding on_finalize
on_finalize-Progress T s filed often = elim (Bool-cases (s.bank.spend_poll_frequency == 0)) [
  | inl zero_ ↦ absurd (ground (arith, often))
  | inr set ↦ elim (Bool-cases (s.block_number % s.bank.spend_poll_frequency == 0)) [
    | inl due ↦ (
      (for_each (poll_entry T) s.bank.spend_proposals s).1,
      rw (set, due) refl,
      polls-Progress T s.bank.spend_proposals s (
          Pending-all s.bank.spend_proposals s.bank filed.once
            (λ b i p h. (filed.own_id b i p h, h))),
    )
    | inr idle ↦ (s, rw (set, idle) refl, Progress-refl s.bank)
  ]
]
