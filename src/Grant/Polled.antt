-- ===== src/Grant/Polled.antt =====
-- The hook of the grant pallet keeps the milestones under approved applications.
use sunshine_node.Prelude.{
  ℕ, ◌%◌, ◌≡◌, ◌⊎◌, refl, sym, ◌∙◌, ap, subst, inl, inr, true, false, Option, none, some, [], ◌∷◌,
  arith, ◌==◌, Bool-cases, Option-cases, some-injective,
}
use sunshine_node.Storage.Map
use sunshine_node.Storage.Map.{Map, Distinct, Stored}
use sunshine_node.Storage.DoubleMap.{DoubleMap, AllFirst, get-AllFirst}
use sunshine_node.Dispatch.{Result-cases}
use sunshine_node.Exec.{for_each}
use sunshine_node.Util.Vote.{VoteOutcome}
use sunshine_node.Util.Grant.{
  GrantApplication, ApplicationState, MilestoneSubmission, reviewed_by, is_live,
  milestone_reviewed_by,
}
use sunshine_node.Runtime.{Config}
use sunshine_node.Vote.{get_vote_outcome}
use sunshine_node.Grant.Base.{State, GrantStore, GrantTrait, approve_milestone_and_try_transfer}
use sunshine_node.Grant.Finalize.{
  poll_application, poll_milestone, finalize_applications, finalize_milestones, on_finalize,
}
use sunshine_node.Grant.Delivered.{pay-store}
use sunshine_node.Grant.Awards.{
  IsAwarding, is_awarded, put_application-IsAwarding, remove_application-IsAwarding,
  put_milestone-IsAwarding, remove_milestone-IsAwarding,
}

reviewed_not_live :
    (state : ApplicationState) (v : ℕ) → reviewed_by state ≡ some v → is_live state ≡ false
reviewed_not_live ApplicationState.submitted_awaiting_response v h = refl
reviewed_not_live (ApplicationState.under_review_by_acceptance_committee w) v h = refl
reviewed_not_live ApplicationState.approved_and_live v h = ground (arith, h)
reviewed_not_live ApplicationState.closed v h = refl

nothing : {A : Type 0} {a : A} → ◌≡◌ {A = Option A} none (some a) → ⊥
nothing h = ground arith

-- What a poll of the head of a list leaves for the rest of it.
record StillPolls (l : Map GrantApplication) (s : GrantStore) : Type 0 where
  keeps : IsAwarding s
  stored : Stored l s.applications

abbrev outcome_cases :
    (o : VoteOutcome)
    → ((o ≡ VoteOutcome.approved) ⊎ (o ≡ VoteOutcome.rejected))
      ⊎ ((o ≡ VoteOutcome.not_started) ⊎ (o ≡ VoteOutcome.voting))
outcome_cases VoteOutcome.approved = inl (inl refl)
outcome_cases VoteOutcome.rejected = inl (inr refl)
outcome_cases VoteOutcome.not_started = inr (inl refl)
outcome_cases VoteOutcome.voting = inr (inr refl)

module _ {L : Type 0} where
  poll_application-StillPolls :
      (id : ℕ) (app : GrantApplication) (l : Map GrantApplication) (s : State L)
      → Map.get l id ≡ none
      → StillPolls ((id, app) ∷ l) s.store
      → StillPolls l (poll_application (id, app) s).1.store
  unfolding poll_application
  poll_application-StillPolls id app l s free is =
      let passed : StillPolls l s.store = record { keeps = is.keeps; stored = is.stored.1 } in
      elim (Option-cases (reviewed_by app.state)) [
        | inl no_review ↦ rw no_review passed
        | inr (v, review) ↦ elim (Result-cases (get_vote_outcome v s.base).0) [
          | inr (e, no_vote) ↦ rw (review, no_vote) passed
          | inl (o, voted) ↦ elim (outcome_cases o) [
            | inl (inl approved) ↦
                rw (review, voted, approved)
                  (record {
                    keeps =
                        put_application-IsAwarding s.store is.keeps id s.store.application_nonce _
                          (inr refl);
                    stored = Map.Stored-insert l s.store.applications id _ free is.stored.1;
                  })
            | inl (inr rejected) ↦
                rw (review, voted, rejected)
                  (record {
                    keeps =
                        remove_application-IsAwarding s.store is.keeps id
                          (ap is_awarded is.stored.0 ∙ reviewed_not_live app.state v review);
                    stored = Map.Stored-remove l s.store.applications id free is.stored.1;
                  })
            | inr (inl before) ↦ rw (review, voted, before) passed
            | inr (inr during) ↦ rw (review, voted, during) passed
          ]
        ]
      ]

  poll_applications-IsAwarding :
      (l : Map GrantApplication) (s : State L)
      → Distinct l
      → StillPolls l s.store
      → IsAwarding (for_each poll_application l s).1.store
  unfolding for_each
  poll_applications-IsAwarding [] s distinct is = is.keeps
  poll_applications-IsAwarding ((id, app) ∷ l) s distinct is =
      let rest = poll_application-StillPolls id app l s distinct.0 is in
      elim (Result-cases (poll_application (id, app) s).0) [
        | inr (e, failed) ↦ rw failed rest.keeps
        | inl polled ↦ rw polled.1 (poll_applications-IsAwarding l _ distinct.1 rest)
      ]

  -- The state after the outcome of a vote was asked for.
  abbrev asked : State L → ℕ → State L
  asked s v = record s { base = (get_vote_outcome v s.base).1 }

module _ (T : Config) (K : GrantTrait) where
  poll_milestone-IsAwarding :
      (aid mid : ℕ) (m : MilestoneSubmission) (s : State T.Ledger)
      → is_awarded (Map.get s.store.applications aid) ≡ true
      → IsAwarding s.store
      → IsAwarding (poll_milestone T K (aid, mid, m) s).1.store
  unfolding poll_milestone
  poll_milestone-IsAwarding aid mid m s live is =
      elim (Option-cases (milestone_reviewed_by m.state)) [
        | inl no_review ↦ rw no_review is
        | inr (v, review) ↦ elim (Result-cases (get_vote_outcome v s.base).0) [
          | inr (e, no_vote) ↦ rw (review, no_vote) is
          | inl (o, voted) ↦ elim (outcome_cases o) [
            | inl (inl approved) ↦
                let paying = approve_milestone_and_try_transfer T K m (asked s v) in
                let kept = pay-store T K (asked s v) m in
                elim (Result-cases paying.0) [
                  | inr (e, failed) ↦ rw (review, voted, approved, failed) (rw kept is)
                  | inl (new, paid) ↦
                      rw (review, voted, approved, paid)
                        (rw kept (
                          put_milestone-IsAwarding s.store is aid mid s.store.milestone_nonce new
                            live))
                ]
            | inl (inr rejected) ↦
                rw (review, voted, rejected) (remove_milestone-IsAwarding s.store is aid mid)
            | inr (inl before) ↦ rw (review, voted, before) is
            | inr (inr during) ↦ rw (review, voted, during) is
          ]
        ]
      ]

  -- A poll of a milestone leaves the applications.
  poll_milestone-applications :
      (aid mid : ℕ) (m : MilestoneSubmission) (s : State T.Ledger)
      → (poll_milestone T K (aid, mid, m) s).1.store.applications ≡ s.store.applications
  unfolding poll_milestone
  poll_milestone-applications aid mid m s = elim (Option-cases (milestone_reviewed_by m.state)) [
    | inl no_review ↦ rw no_review refl
    | inr (v, review) ↦ elim (Result-cases (get_vote_outcome v s.base).0) [
      | inr (e, no_vote) ↦ rw (review, no_vote) refl
      | inl (o, voted) ↦ elim (outcome_cases o) [
        | inl (inl approved) ↦
            let paying = approve_milestone_and_try_transfer T K m (asked s v) in
            let kept = ap (λ (g : GrantStore). g.applications) (pay-store T K (asked s v) m) in
            elim (Result-cases paying.0) [
              | inr (e, failed) ↦ rw (review, voted, approved, failed) kept
              | inl (new, paid) ↦ rw (review, voted, approved, paid) kept
            ]
        | inl (inr rejected) ↦ rw (review, voted, rejected) refl
        | inr (inl before) ↦ rw (review, voted, before) refl
        | inr (inr during) ↦ rw (review, voted, during) refl
      ]
    ]
  ]

  abbrev Awarded : Map GrantApplication → ℕ → Type 0
  Awarded apps aid = is_awarded (Map.get apps aid) ≡ true

  poll_milestones-IsAwarding :
      (l : DoubleMap MilestoneSubmission) (s : State T.Ledger)
      → AllFirst (Awarded s.store.applications) l
      → IsAwarding s.store
      → IsAwarding (for_each (poll_milestone T K) l s).1.store
  unfolding for_each
  poll_milestones-IsAwarding [] s live is = is
  poll_milestones-IsAwarding ((aid, mid, m) ∷ l) s live is =
      let next = poll_milestone-IsAwarding aid mid m s live.0 is in
      elim (Result-cases (poll_milestone T K (aid, mid, m) s).0) [
        | inr (e, failed) ↦ rw failed next
        | inl polled ↦ rw polled.1 (
            poll_milestones-IsAwarding l _
              (subst (λ apps. AllFirst (Awarded apps) l)
                (sym (poll_milestone-applications aid mid m s)) live.1)
              next)
      ]

  applications-IsAwarding :
      (s t : State T.Ledger)
      → IsAwarding s.store
      → finalize_applications T K s ≡ some t
      → IsAwarding t.store
  unfolding finalize_applications
  applications-IsAwarding s t is h = elim (Bool-cases (s.base.block_number == 0)) [
    | inl first ↦ absurd (nothing (rw first at h))
    | inr later ↦
        elim (Bool-cases (s.store.application_poll_frequency % s.base.block_number == 0)) [
          | inl due ↦
              subst (λ (u : State T.Ledger). IsAwarding u.store)
                (some-injective _ t (rw (later, due) at h))
                (poll_applications-IsAwarding s.store.applications s is.once
                  (record { keeps = is; stored = Map.Stored-self s.store.applications is.once }))
          | inr not_due ↦
              subst (λ (u : State T.Ledger). IsAwarding u.store)
                (some-injective s t (rw (later, not_due) at h)) is
        ]
  ]

  milestones-IsAwarding :
      (s t : State T.Ledger)
      → IsAwarding s.store
      → finalize_milestones T K s ≡ some t
      → IsAwarding t.store
  unfolding finalize_milestones
  milestones-IsAwarding s t is h = elim (Bool-cases (s.base.block_number == 0)) [
    | inl first ↦ absurd (nothing (rw first at h))
    | inr later ↦ elim (Bool-cases (s.store.milestone_poll_frequency % s.base.block_number == 0)) [
      | inl due ↦
          subst (λ (u : State T.Ledger). IsAwarding u.store)
            (some-injective _ t (rw (later, due) at h))
            (poll_milestones-IsAwarding s.store.milestones s
              (get-AllFirst (Awarded s.store.applications) s.store.milestones is.awarded) is)
      | inr not_due ↦
          subst (λ (u : State T.Ledger). IsAwarding u.store)
            (some-injective s t (rw (later, not_due) at h)) is
    ]
  ]

  pub finalize-IsAwarding :
      (s t : State T.Ledger) → IsAwarding s.store → on_finalize T K s ≡ some t → IsAwarding t.store
  unfolding on_finalize
  finalize-IsAwarding s t is h = elim (Option-cases (finalize_applications T K s)) [
    | inl panics ↦ absurd (nothing (rw panics at h))
    | inr (u, half) ↦ milestones-IsAwarding u t (applications-IsAwarding s u is half) (rw half at h)
  ]
