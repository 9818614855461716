-- ===== src/Bank/Progress.antt =====
-- Every operation on spends follows the relation.
use sunshine_node.Prelude.{
  ℕ, ◌+◌, ◌<◌, ◌≡◌, refl, sym, ◌∙◌, subst, inl, inr, some, none, length, Bool-cases, Option-cases,
}
use sunshine_node.Word.{u64_mod, add64}
use sunshine_node.Storage.Map
use sunshine_node.Storage.DoubleMap
use sunshine_node.Storage.DoubleMap.{DoubleMap, get-iter_prefix}
use sunshine_node.Storage.Fresh.{next_free, next_id_fresh}
use sunshine_node.Dispatch.{Result, ok, err}
use sunshine_node.Util.Bank
use sunshine_node.Util.Bank.{SpendProposal, SpendState, set_state, is_controller}
use sunshine_node.Runtime.{BankStore, Runtime, Config}
use sunshine_node.Exec.{continue}
use sunshine_node.Util.Vote.{VoteOutcome}
use sunshine_node.Org
use sunshine_node.Vote
use sunshine_node.Vote.Frame.{invoke_threshold-OnlyVote}
use sunshine_node.Bank.Base.{or_zero, is_bank, generate_spend_uid}
use sunshine_node.Bank.Spend.{
  executed_if, payment, approve_from, trigger_from, poll_from, conclude, begin_voting,
  propose_spend_for, trigger_vote_on_spend_proposal, sudo_approve_spend_proposal,
  poll_spend_proposal,
}
use sunshine_node.Bank.Moves.{Moves, Progress, Progress-refl, Progress-set, Progress-add}

module _ (T : Config) (b i : ℕ) (s : Runtime T.Ledger) where
  module _ (p : SpendProposal) (found : DoubleMap.get s.bank.spend_proposals b i ≡ some p) where
    approve_from-Progress :
        (state : SpendState)
        → state ≡ p.state
        → Progress s.bank (approve_from T state b i p s).1.bank
    approve_from-Progress SpendState.waiting_for_approval e =
        Progress-set s.bank b i p _ found
          (subst (λ a. Moves a (executed_if (payment T b p s).0)) e (Moves.approve _))
    approve_from-Progress (SpendState.voting v) e = Progress-refl s.bank
    approve_from-Progress SpendState.approved_but_not_executed e = Progress-refl s.bank
    approve_from-Progress SpendState.approved_and_executed e = Progress-refl s.bank

  -- The approval by the controller, on every branch: each stored spend is still there, with the same
  -- payment, and its state has stayed or has made a move of the life of a spend.
  pub sudo_approve-Progress :
      (caller : ℕ) → Progress s.bank (sudo_approve_spend_proposal T caller b i s).1.bank
  unfolding sudo_approve_spend_proposal
  sudo_approve-Progress caller = elim (Option-cases (Map.get s.bank.banks b)) [
    | inl e ↦ rw e (Progress-refl s.bank)
    | inr (x, e) ↦ rw e (elim (Bool-cases (is_controller x caller)) [
      | inl f ↦ rw f (elim (Option-cases (DoubleMap.get s.bank.spend_proposals b i)) [
        | inl g ↦ rw g (Progress-refl s.bank)
        | inr (p, g) ↦ rw g (approve_from-Progress p g p.state refl)
      ])
      | inr f ↦ rw f (Progress-refl s.bank)
    ])
  ]

  module _ (p : SpendProposal) (found : DoubleMap.get s.bank.spend_proposals b i ≡ some p) where
    voting-Progress :
        (r : Result ℕ) (t : Runtime T.Ledger)
        → t.bank ≡ s.bank
        → p.state ≡ SpendState.waiting_for_approval
        → Progress s.bank (continue r (begin_voting T b i p) t).1.bank
    voting-Progress (ok v) t same e =
        subst
          (λ (x : BankStore). Progress s.bank (record x {
            spend_proposals =
                DoubleMap.insert x.spend_proposals b i (set_state p (SpendState.voting v));
          }))
          (sym same)
          (Progress-set s.bank b i p (SpendState.voting v) found
            (subst (λ a. Moves a (SpendState.voting v)) (sym e) (Moves.vote v)))
    voting-Progress (err x) t same e = subst (Progress s.bank) (sym same) (Progress-refl s.bank)

    trigger_from-Progress :
        (state : SpendState) (threshold_id : ℕ)
        → state ≡ p.state
        → Progress s.bank (trigger_from T state threshold_id b i p s).1.bank
    trigger_from-Progress SpendState.waiting_for_approval threshold_id e =
        voting-Progress (Vote.invoke_threshold T threshold_id none none s).0
          (Vote.invoke_threshold T threshold_id none none s).1
          (invoke_threshold-OnlyVote T threshold_id none none s).bank_same (sym e)
    trigger_from-Progress (SpendState.voting v) threshold_id e = Progress-refl s.bank
    trigger_from-Progress SpendState.approved_but_not_executed threshold_id e = Progress-refl s.bank
    trigger_from-Progress SpendState.approved_and_executed threshold_id e = Progress-refl s.bank

  -- The same of a vote that is triggered for a spend, on every branch.
  pub trigger_vote-Progress :
      (caller : ℕ) → Progress s.bank (trigger_vote_on_spend_proposal T caller b i s).1.bank
  unfolding trigger_vote_on_spend_proposal
  trigger_vote-Progress caller = elim (Option-cases (Map.get s.bank.banks b)) [
    | inl e ↦ rw e (Progress-refl s.bank)
    | inr (x, e) ↦ rw e (elim (Bool-cases (Org.is_member_of_group s.org x.org caller)) [
      | inl f ↦ rw f (elim (Option-cases (DoubleMap.get s.bank.spend_proposals b i)) [
        | inl g ↦ rw g (Progress-refl s.bank)
        | inr (p, g) ↦ rw g (trigger_from-Progress p g p.state x.threshold_id refl)
      ])
      | inr f ↦ rw f (Progress-refl s.bank)
    ])
  ]

module _ (T : Config) (prop : SpendProposal) (s : Runtime T.Ledger)
    (stored : DoubleMap.get s.bank.spend_proposals prop.id.0 prop.id.1 ≡ some prop) where
  conclude-Progress :
      (v : ℕ) (outcome : VoteOutcome)
      → SpendState.voting v ≡ prop.state
      → Progress s.bank (conclude T outcome prop s).1.bank
  conclude-Progress v VoteOutcome.approved e =
      Progress-set s.bank prop.id.0 prop.id.1 prop _ stored
        (subst (λ a. Moves a (executed_if (payment T prop.id.0 prop s).0)) e (Moves.settle v _))
  conclude-Progress v VoteOutcome.not_started e = Progress-refl s.bank
  conclude-Progress v VoteOutcome.voting e = Progress-refl s.bank
  conclude-Progress v VoteOutcome.rejected e = Progress-refl s.bank

  poll_from-Progress :
      (state : SpendState) → state ≡ prop.state → Progress s.bank (poll_from T state prop s).1.bank
  unfolding Vote.get_vote_outcome
  poll_from-Progress SpendState.waiting_for_approval e = Progress-refl s.bank
  poll_from-Progress (SpendState.voting v) e = elim (Option-cases (Map.get s.vote.vote_states v)) [
    | inl none_ ↦ rw none_ (Progress-refl s.bank)
    | inr (st, found) ↦ rw found (conclude-Progress v st.outcome e)
  ]
  poll_from-Progress SpendState.approved_but_not_executed e = Progress-refl s.bank
  poll_from-Progress SpendState.approved_and_executed e = Progress-refl s.bank

  -- The same of the poll of a stored spend, on every branch.
  pub poll-Progress : Progress s.bank (poll_spend_proposal T prop s).1.bank
  unfolding poll_spend_proposal
  poll-Progress = elim (Bool-cases (is_bank s.bank prop.id.0)) [
    | inl f ↦ rw (f, stored) (poll_from-Progress prop.state refl)
    | inr f ↦ rw f (Progress-refl s.bank)
  ]

-- The nonce of a bank's spends, and the room that is left for it.
abbrev pub HasSpendRoom : BankStore → ℕ → Type 0
HasSpendRoom s b =
    or_zero (Map.get s.spend_nonce_map b) + 1 + length (DoubleMap.iter_prefix s.spend_proposals b)
    < u64_mod

-- The identifier that the next spend of a bank has.
abbrev pub next_spend_id : BankStore → ℕ → ℕ
next_spend_id s b =
    let spends = DoubleMap.iter_prefix s.spend_proposals b in
    next_free (length spends + 1) spends (add64 (or_zero (Map.get s.spend_nonce_map b)) 1)

-- The same of a proposal for a spend, on every branch: it takes the place of no stored spend, where
-- the bank's nonce and its spends leave room below 2^64.
pub propose_spend-Progress :
    {L : Type 0} (caller b amount dest : ℕ) (s : Runtime L)
    → HasSpendRoom s.bank b
    → Progress s.bank (propose_spend_for caller b amount dest s).1.bank
unfolding propose_spend_for generate_spend_uid
propose_spend-Progress caller b amount dest s room = elim (Option-cases (Map.get s.bank.banks b)) [
  | inl e ↦ rw e (Progress-refl s.bank)
  | inr (x, e) ↦ rw e (elim (Bool-cases (Org.is_member_of_group s.org x.org caller)) [
    | inl f ↦ rw f (
        Progress-add s.bank (Map.insert s.bank.spend_nonce_map b (next_spend_id s.bank b)) b
          (next_spend_id s.bank b) (Bank.new b (next_spend_id s.bank b) amount dest)
          (sym (get-iter_prefix s.bank.spend_proposals b (next_spend_id s.bank b))
            ∙ (next_id_fresh (DoubleMap.iter_prefix s.bank.spend_proposals b)
                (or_zero (Map.get s.bank.spend_nonce_map b)) room).1))
    | inr f ↦ rw f (Progress-refl s.bank)
  ])
]
