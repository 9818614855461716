-- ===== src/Bank/Payment.antt =====
-- When a spend is paid: by the controller while it waits, or by a vote that approved it, and once.
use sunshine_node.Prelude.{
  ℕ, ◌≡◌, ◌≢◌, refl, sym, inl, inr, true, some, arith, Option-cases, Bool-cases,
}
use sunshine_node.Storage.Map
use sunshine_node.Storage.DoubleMap
use sunshine_node.Storage.DoubleMap.{DoubleMap}
use sunshine_node.Dispatch.{ok}
use sunshine_node.Util.Vote.{VoteState, VoteOutcome}
use sunshine_node.Util.Bank.{BankState, SpendProposal, SpendState, set_state, is_controller}
use sunshine_node.Runtime.{Runtime, Config}
use sunshine_node.Org
use sunshine_node.Vote
use sunshine_node.Bank.Base.{is_bank}
use sunshine_node.Bank.Moves.{IsFinal}
use sunshine_node.Bank.Spend.{
  executed_if, payment, put_spend, approve_from, trigger_from, poll_from, conclude,
  trigger_vote_on_spend_proposal, sudo_approve_spend_proposal, poll_spend_proposal,
}

module _ (T : Config) (caller b i : ℕ) (s : Runtime T.Ledger) where
  -- What an approval by the controller that succeeds has found, and what it has done.
  pub record Approval (t : Runtime T.Ledger) : Type 0 where
    pub account : BankState
    pub spend : SpendProposal
    pub account_found : Map.get s.bank.banks b ≡ some account
    pub allowed : is_controller account caller ≡ true
    pub spend_found : DoubleMap.get s.bank.spend_proposals b i ≡ some spend
    pub waiting : spend.state ≡ SpendState.waiting_for_approval
    pub written :
        t
        ≡ (put_spend b i
            (set_state spend (executed_if (payment T b spend s).0))
            (payment T b spend s).1).1

  module _ (x : BankState) (p : SpendProposal) (account : Map.get s.bank.banks b ≡ some x)
      (allowed : is_controller x caller ≡ true)
      (found : DoubleMap.get s.bank.spend_proposals b i ≡ some p) where
    approve_from-Approval :
        (state : SpendState)
        → state ≡ p.state
        → (approve_from T state b i p s).0 ≡ ok tt
        → Approval (approve_from T state b i p s).1
    approve_from-Approval SpendState.waiting_for_approval e done = record {
      account = x;
      spend = p;
      account_found = account;
      allowed = allowed;
      spend_found = found;
      waiting = sym e;
      written = refl;
    }
    approve_from-Approval (SpendState.voting v) e done = ground arith
    approve_from-Approval SpendState.approved_but_not_executed e done = ground arith
    approve_from-Approval SpendState.approved_and_executed e done = ground arith

  -- An approval that succeeds comes from the controller of a bank that exists, for a stored spend
  -- that waits for approval; it is one payment from the account of the bank, and the spend's new
  -- state says whether the currency accepted it.
  pub sudo_approve-Approval :
      (sudo_approve_spend_proposal T caller b i s).0 ≡ ok tt
      → Approval (sudo_approve_spend_proposal T caller b i s).1
  unfolding sudo_approve_spend_proposal
  sudo_approve-Approval done = elim (Option-cases (Map.get s.bank.banks b)) [
    | inl e ↦ ground arith
    | inr (x, e) ↦ elim (Bool-cases (is_controller x caller)) [
      | inl f ↦ elim (Option-cases (DoubleMap.get s.bank.spend_proposals b i)) [
        | inl g ↦ ground arith
        | inr (p, g) ↦
            rw (e, f, g) (approve_from-Approval x p e f g p.state refl (rw (e, f, g) at done))
      ]
      | inr f ↦ ground arith
    ]
  ]

module _ (T : Config) (b i : ℕ) (s : Runtime T.Ledger) (p : SpendProposal)
    (found : DoubleMap.get s.bank.spend_proposals b i ≡ some p) where
  approve_final : (state : SpendState) → IsFinal state → (approve_from T state b i p s).1 ≡ s
  approve_final SpendState.waiting_for_approval f = absurd f
  approve_final (SpendState.voting v) f = absurd f
  approve_final SpendState.approved_but_not_executed f = refl
  approve_final SpendState.approved_and_executed f = refl

  trigger_final :
      (state : SpendState) (id : ℕ) → IsFinal state → (trigger_from T state id b i p s).1 ≡ s
  trigger_final SpendState.waiting_for_approval id f = absurd f
  trigger_final (SpendState.voting v) id f = absurd f
  trigger_final SpendState.approved_but_not_executed id f = refl
  trigger_final SpendState.approved_and_executed id f = refl

  poll_final : (state : SpendState) → IsFinal state → (poll_from T state p s).1 ≡ s
  poll_final SpendState.waiting_for_approval f = absurd f
  poll_final (SpendState.voting v) f = absurd f
  poll_final SpendState.approved_but_not_executed f = refl
  poll_final SpendState.approved_and_executed f = refl

  module _ (final : IsFinal p.state) where
    sudo_approve_final : (caller : ℕ) → (sudo_approve_spend_proposal T caller b i s).1 ≡ s
    unfolding sudo_approve_spend_proposal
    sudo_approve_final caller = elim (Option-cases (Map.get s.bank.banks b)) [
      | inl e ↦ rw e refl
      | inr (x, e) ↦ elim (Bool-cases (is_controller x caller)) [
        | inl f ↦ rw (e, f, found) (approve_final p.state final)
        | inr f ↦ rw (e, f) refl
      ]
    ]

    trigger_vote_final : (caller : ℕ) → (trigger_vote_on_spend_proposal T caller b i s).1 ≡ s
    unfolding trigger_vote_on_spend_proposal
    trigger_vote_final caller = elim (Option-cases (Map.get s.bank.banks b)) [
      | inl e ↦ rw e refl
      | inr (x, e) ↦ elim (Bool-cases (Org.is_member_of_group s.org x.org caller)) [
        | inl f ↦ rw (e, f, found) (trigger_final p.state x.threshold_id final)
        | inr f ↦ rw (e, f) refl
      ]
    ]

    -- A spend that was approved is not paid again, whether the payment had gone through or not: an
    -- approval by the controller, a vote and a poll each leave the whole state as it is, the
    -- currency included.
    pub approved_is_settled :
        (caller : ℕ)
        → ((sudo_approve_spend_proposal T caller b i s).1 ≡ s)
          × ((trigger_vote_on_spend_proposal T caller b i s).1 ≡ s)
          × ((poll_spend_proposal T p s).1 ≡ s)
    unfolding poll_spend_proposal
    approved_is_settled caller = (
      sudo_approve_final caller,
      trigger_vote_final caller,
      elim (Bool-cases (is_bank s.bank p.id.0)) [
        | inl f ↦ elim (Option-cases (DoubleMap.get s.bank.spend_proposals p.id.0 p.id.1)) [
          | inl e ↦ rw (f, e) refl
          | inr (q, e) ↦ rw (f, e) (poll_final p.state final)
        ]
        | inr f ↦ rw f refl
      ],
    )

module _ (T : Config) (prop : SpendProposal) (s : Runtime T.Ledger) where
  conclude_unapproved :
      (outcome : VoteOutcome) → outcome ≢ VoteOutcome.approved → (conclude T outcome prop s).1 ≡ s
  conclude_unapproved VoteOutcome.approved ne = absurd (ne refl)
  conclude_unapproved VoteOutcome.not_started ne = refl
  conclude_unapproved VoteOutcome.voting ne = refl
  conclude_unapproved VoteOutcome.rejected ne = refl

  -- The vote with this identifier has not approved anything.
  abbrev pub Unapproved : ℕ → Type 0
  Unapproved v =
      (st : VoteState) → Map.get s.vote.vote_states v ≡ some st → st.outcome ≢ VoteOutcome.approved

  poll_from-Unapproved :
      (state : SpendState)
      → ((v : ℕ) → state ≡ SpendState.voting v → Unapproved v)
      → (poll_from T state prop s).1 ≡ s
  unfolding Vote.get_vote_outcome
  poll_from-Unapproved SpendState.waiting_for_approval u = refl
  poll_from-Unapproved (SpendState.voting v) u =
      elim (Option-cases (Map.get s.vote.vote_states v)) [
        | inl e ↦ rw e refl
        | inr (st, e) ↦ rw e (conclude_unapproved st.outcome (u v refl st e))
      ]
  poll_from-Unapproved SpendState.approved_but_not_executed u = refl
  poll_from-Unapproved SpendState.approved_and_executed u = refl

  -- A poll pays nothing, and changes nothing, unless the spend is in a vote that is approved.
  pub poll-Unapproved :
      ((v : ℕ) → prop.state ≡ SpendState.voting v → Unapproved v)
      → (poll_spend_proposal T prop s).1 ≡ s
  unfolding poll_spend_proposal
  poll-Unapproved u = elim (Bool-cases (is_bank s.bank prop.id.0)) [
    | inl f ↦ elim (Option-cases (DoubleMap.get s.bank.spend_proposals prop.id.0 prop.id.1)) [
      | inl e ↦ rw (f, e) refl
      | inr (p, e) ↦ rw (f, e) (poll_from-Unapproved prop.state u)
    ]
    | inr f ↦ rw f refl
  ]
