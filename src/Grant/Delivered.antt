-- ===== src/Grant/Delivered.antt =====
-- The calls of the grant pallet on milestones keep the milestones under approved applications.
use sunshine_node.Prelude.{ℕ, ◌≡◌, refl, ◌∙◌, ap, inl, inr, not, Bool-cases, Option-cases}
use sunshine_node.Storage.Map
use sunshine_node.Storage.DoubleMap
use sunshine_node.Dispatch.{Result-cases}
use sunshine_node.Util.Meta.{is_sudo}
use sunshine_node.Util.Grant.{MilestoneSubmission, Recipient, is_live, milestone_awaits}
use sunshine_node.Runtime.{Config}
use sunshine_node.Grant.Base.{
  State, GrantTrait, foundation_id_is_available, milestone_generate_uid,
  approve_milestone_and_try_transfer,
}
use sunshine_node.Grant.Calls.{may_trigger, open_by}
use sunshine_node.Grant.Milestones.{
  submit_milestone, trigger_milestone_review, approve_milestone, reject_milestone,
}
use sunshine_node.Grant.Applied.{open-store}
use sunshine_node.Grant.Awards.{
  IsAwarding, is_awarded, put_milestone-IsAwarding, remove_milestone-IsAwarding,
}

module _ (T : Config) (K : GrantTrait) (s : State T.Ledger) where
  pub pay-store :
      (m : MilestoneSubmission) → (approve_milestone_and_try_transfer T K m s).1.store ≡ s.store
  unfolding approve_milestone_and_try_transfer
  pay-store m = elim (Option-cases m.recipient.org) [
    | inl account ↦ rw account refl
    | inr (o, group) ↦ rw group refl
  ]

  module _ (is : IsAwarding s.store) (origin : T.Origin) where
    pub submit_milestone-IsAwarding :
        (foundation aid ref : ℕ) (r : Recipient) (amount : ℕ)
        → IsAwarding (submit_milestone T K origin foundation aid ref r amount s).1.store
    unfolding submit_milestone milestone_generate_uid
    submit_milestone-IsAwarding foundation aid ref r amount =
        elim (Result-cases (T.ensure_signed origin)) [
          | inr (e, unsigned) ↦ rw unsigned is
          | inl (who, signed) ↦
              elim (Bool-cases (not (foundation_id_is_available s.store foundation))) [
                | inr absent ↦ rw (signed, absent) is
                | inl there ↦ elim (Option-cases (Map.get s.store.applications aid)) [
                  | inl gone ↦ rw (signed, there, gone) is
                  | inr (app, found) ↦ elim (Bool-cases (is_live app.state)) [
                    | inr early ↦ rw (signed, there, found, early) is
                    | inl live ↦
                        rw (signed, there, found, live)
                          (put_milestone-IsAwarding s.store is aid _ _ _
                            (ap is_awarded found ∙ live))
                  ]
                ]
              ]
        ]

    pub trigger_milestone-IsAwarding :
        (aid mid : ℕ) → IsAwarding (trigger_milestone_review T K origin aid mid s).1.store
    unfolding trigger_milestone_review
    trigger_milestone-IsAwarding aid mid = elim (Result-cases (T.ensure_signed origin)) [
      | inr (e, unsigned) ↦ rw unsigned is
      | inl (who, signed) ↦ elim (Option-cases (DoubleMap.get s.store.milestones aid mid)) [
        | inl absent ↦ rw (signed, absent) is
        | inr (m, found) ↦ elim (Bool-cases (milestone_awaits m.state)) [
          | inr done ↦ rw (signed, found, done) is
          | inl waits ↦ elim (Option-cases (Map.get s.store.foundations m.base.0)) [
            | inl gone ↦ rw (signed, found, waits, gone) is
            | inr (f, funded) ↦ elim (Bool-cases (may_trigger s.base.org f.gov.vote f.gov who)) [
              | inr stranger ↦ rw (signed, found, waits, funded, stranger) is
              | inl may ↦ elim (Option-cases f.gov.vote) [
                | inl no_vote ↦ rw (signed, found, waits, funded, may, no_vote) is
                | inr (vote, voted) ↦
                    let opening = open_by T vote m.submission s in
                    let kept = open-store T K s vote m.submission in
                    elim (Result-cases opening.0) [
                      | inr (e, failed) ↦
                          rw (signed, found, waits, funded, may, voted, failed) (rw kept is)
                      | inl (v, opened) ↦
                          rw (signed, found, waits, funded, may, voted, opened)
                            (rw kept (
                              put_milestone-IsAwarding s.store is aid mid s.store.milestone_nonce _
                                (is.awarded aid mid m found)))
                    ]
              ]
            ]
          ]
        ]
      ]
    ]

    pub approve_milestone-IsAwarding :
        (aid mid : ℕ) → IsAwarding (approve_milestone T K origin aid mid s).1.store
    unfolding approve_milestone
    approve_milestone-IsAwarding aid mid = elim (Result-cases (T.ensure_signed origin)) [
      | inr (e, unsigned) ↦ rw unsigned is
      | inl (who, signed) ↦ elim (Option-cases (DoubleMap.get s.store.milestones aid mid)) [
        | inl absent ↦ rw (signed, absent) is
        | inr (m, found) ↦ elim (Bool-cases (milestone_awaits m.state)) [
          | inr done ↦ rw (signed, found, done) is
          | inl waits ↦ elim (Option-cases (Map.get s.store.foundations m.base.0)) [
            | inl gone ↦ rw (signed, found, waits, gone) is
            | inr (f, funded) ↦ elim (Bool-cases (is_sudo f.gov who)) [
              | inr stranger ↦ rw (signed, found, waits, funded, stranger) is
              | inl sudo ↦ elim (Result-cases (approve_milestone_and_try_transfer T K m s).0) [
                | inr (e, failed) ↦
                    rw (signed, found, waits, funded, sudo, failed) (rw (pay-store m) is)
                | inl (new, paid) ↦
                    rw (signed, found, waits, funded, sudo, paid)
                      (rw (pay-store m) (
                        put_milestone-IsAwarding s.store is aid mid s.store.milestone_nonce new
                          (is.awarded aid mid m found)))
              ]
            ]
          ]
        ]
      ]
    ]

    pub reject_milestone-IsAwarding :
        (aid mid : ℕ) → IsAwarding (reject_milestone T K origin aid mid s).1.store
    unfolding reject_milestone
    reject_milestone-IsAwarding aid mid = elim (Result-cases (T.ensure_signed origin)) [
      | inr (e, unsigned) ↦ rw unsigned is
      | inl (who, signed) ↦ elim (Option-cases (DoubleMap.get s.store.milestones aid mid)) [
        | inl absent ↦ rw (signed, absent) is
        | inr (m, found) ↦ elim (Bool-cases (milestone_awaits m.state)) [
          | inr done ↦ rw (signed, found, done) is
          | inl waits ↦ elim (Option-cases (Map.get s.store.foundations m.base.0)) [
            | inl gone ↦ rw (signed, found, waits, gone) is
            | inr (f, funded) ↦ elim (Bool-cases (is_sudo f.gov who)) [
              | inr stranger ↦ rw (signed, found, waits, funded, stranger) is
              | inl sudo ↦
                  rw (signed, found, waits, funded, sudo)
                    (remove_milestone-IsAwarding s.store is aid mid)
            ]
          ]
        ]
      ]
    ]
