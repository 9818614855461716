-- ===== src/Grant/Applied.antt =====
-- The calls of the grant pallet on foundations and applications keep the milestones under approved applications.
use sunshine_node.Prelude.{
  ℕ, ◌+◌, ◌<◌, ◌≡◌, refl, ap, inl, inr, not, leb, length, Bool-cases, Option-cases,
}
use sunshine_node.Word.{u64_mod}
use sunshine_node.Storage.Map
use sunshine_node.Storage.DoubleMap
use sunshine_node.Storage.Fresh.{next_id_fresh}
use sunshine_node.Dispatch.{Result-cases}
use sunshine_node.Util.Organization.{OrgRep}
use sunshine_node.Util.Meta.{VoteMetadata, ResolutionMetadata, is_sudo}
use sunshine_node.Util.Grant.{Foundation, Recipient, awaiting_review}
use sunshine_node.Runtime.{Config}
use sunshine_node.Grant.Base.{
  State, GrantStore, GrantTrait, foundation_id_is_available, foundation_generate_uid,
  application_generate_uid,
}
use sunshine_node.Grant.Calls.{
  may_trigger, open_by, create_foundation, donate_to_foundation, submit_application,
  trigger_application_review, approve_application, reject_application,
}
use sunshine_node.Grant.Awards.{
  IsAwarding, is_awarded, put_application-IsAwarding, remove_application-IsAwarding, unapproved_of,
}

-- The counter and the applications leave an identifier.
abbrev pub HasRoom : GrantStore → Type 0
HasRoom s = s.application_nonce + 1 + length s.applications < u64_mod

module _ (T : Config) (K : GrantTrait) (s : State T.Ledger) where
  pub open-store :
      (vote : VoteMetadata OrgRep) (topic : ℕ) → (open_by T vote topic s).1.store ≡ s.store
  open-store (VoteMetadata.signal v) topic = refl
  open-store (VoteMetadata.percentage v) topic = refl

  module _ (is : IsAwarding s.store) (origin : T.Origin) where
    -- These write to the foundations alone.
    abbrev elsewhere : Map.Map Foundation → DoubleMap.DoubleMap ℕ → ℕ → GrantStore
    elsewhere foundations donations nonce = record s.store {
      foundation_nonce = nonce;
      foundations = foundations;
      foundation_donations = donations;
    }

    elsewhere-IsAwarding :
        (foundations : Map.Map Foundation) (donations : DoubleMap.DoubleMap ℕ) (nonce : ℕ)
        → IsAwarding (elsewhere foundations donations nonce)
    elsewhere-IsAwarding foundations donations nonce = record {
      once = is.once;
      awarded = is.awarded;
    }

    pub create-IsAwarding :
        (info amount : ℕ) (gov : ResolutionMetadata (VoteMetadata OrgRep))
        → IsAwarding (create_foundation T K origin info amount gov s).1.store
    unfolding create_foundation foundation_generate_uid
    create-IsAwarding info amount gov = elim (Result-cases (T.ensure_signed origin)) [
      | inr (e, unsigned) ↦ rw unsigned is
      | inl (who, signed) ↦ elim (Bool-cases (leb K.min_deposit amount)) [
        | inr low ↦ rw (signed, low) is
        | inl enough ↦ elim (Result-cases (T.withdraw who amount s.base.ledger).0) [
          | inr (e, poor) ↦ rw (signed, enough, poor) is
          | inl taken ↦ rw (signed, enough, taken.1) (elsewhere-IsAwarding _ _ _)
        ]
      ]
    ]

    pub donate-IsAwarding :
        (id amount : ℕ) → IsAwarding (donate_to_foundation T K origin id amount s).1.store
    unfolding donate_to_foundation
    donate-IsAwarding id amount = elim (Result-cases (T.ensure_signed origin)) [
      | inr (e, unsigned) ↦ rw unsigned is
      | inl (who, signed) ↦ elim (Bool-cases (leb K.min_contribution amount)) [
        | inr low ↦ rw (signed, low) is
        | inl enough ↦ elim (Option-cases (Map.get s.store.foundations id)) [
          | inl absent ↦ rw (signed, enough, absent) is
          | inr (f, found) ↦
              elim (Result-cases
                (T.transfer who (K.foundation_account_id id) amount s.base.ledger).0) [
                  | inr (e, poor) ↦ rw (signed, enough, found, poor) is
                  | inl paid ↦ rw (signed, enough, found, paid.1) (elsewhere-IsAwarding _ _ _)
                ]
        ]
      ]
    ]

    pub submit-IsAwarding :
        (foundation ref : ℕ) (r : Recipient) (amount : ℕ)
        → HasRoom s.store
        → IsAwarding (submit_application T K origin foundation ref r amount s).1.store
    unfolding submit_application application_generate_uid
    submit-IsAwarding foundation ref r amount room = elim (Result-cases (T.ensure_signed origin)) [
      | inr (e, unsigned) ↦ rw unsigned is
      | inl (who, signed) ↦
          elim (Bool-cases (not (foundation_id_is_available s.store foundation))) [
            | inr absent ↦ rw (signed, absent) is
            | inl there ↦
                rw (signed, there)
                  (put_application-IsAwarding s.store is _ _ _ (
                    inl (
                      ap is_awarded
                        (next_id_fresh s.store.applications s.store.application_nonce room).1)))
          ]
    ]

    pub trigger-IsAwarding :
        (id : ℕ) → IsAwarding (trigger_application_review T K origin id s).1.store
    unfolding trigger_application_review
    trigger-IsAwarding id = elim (Result-cases (T.ensure_signed origin)) [
      | inr (e, unsigned) ↦ rw unsigned is
      | inl (who, signed) ↦ elim (Option-cases (Map.get s.store.applications id)) [
        | inl absent ↦ rw (signed, absent) is
        | inr (app, found) ↦ elim (Bool-cases (awaiting_review app.state)) [
          | inr done ↦ rw (signed, found, done) is
          | inl waits ↦ elim (Option-cases (Map.get s.store.foundations app.foundation_id)) [
            | inl gone ↦ rw (signed, found, waits, gone) is
            | inr (f, funded) ↦ elim (Bool-cases (may_trigger s.base.org f.gov.vote f.gov who)) [
              | inr stranger ↦ rw (signed, found, waits, funded, stranger) is
              | inl may ↦ elim (Option-cases f.gov.vote) [
                | inl no_vote ↦ rw (signed, found, waits, funded, may, no_vote) is
                | inr (vote, voted) ↦
                    let opening = open_by T vote app.submission_ref s in
                    let kept = open-store vote app.submission_ref in
                    elim (Result-cases opening.0) [
                      | inr (e, failed) ↦
                          rw (signed, found, waits, funded, may, voted, failed) (rw kept is)
                      | inl (v, opened) ↦
                          rw (signed, found, waits, funded, may, voted, opened)
                            (rw kept (
                              put_application-IsAwarding s.store is id s.store.application_nonce _
                                (inl (unapproved_of s.store is id app found waits))))
                    ]
              ]
            ]
          ]
        ]
      ]
    ]

    pub approve-IsAwarding : (id : ℕ) → IsAwarding (approve_application T K origin id s).1.store
    unfolding approve_application
    approve-IsAwarding id = elim (Result-cases (T.ensure_signed origin)) [
      | inr (e, unsigned) ↦ rw unsigned is
      | inl (who, signed) ↦ elim (Option-cases (Map.get s.store.applications id)) [
        | inl absent ↦ rw (signed, absent) is
        | inr (app, found) ↦ elim (Bool-cases (awaiting_review app.state)) [
          | inr done ↦ rw (signed, found, done) is
          | inl waits ↦ elim (Option-cases (Map.get s.store.foundations app.foundation_id)) [
            | inl gone ↦ rw (signed, found, waits, gone) is
            | inr (f, funded) ↦ elim (Bool-cases (is_sudo f.gov who)) [
              | inr stranger ↦ rw (signed, found, waits, funded, stranger) is
              | inl sudo ↦
                  rw (signed, found, waits, funded, sudo)
                    (put_application-IsAwarding s.store is id s.store.application_nonce _
                      (inr refl))
            ]
          ]
        ]
      ]
    ]

    pub reject-IsAwarding : (id : ℕ) → IsAwarding (reject_application T K origin id s).1.store
    unfolding reject_application
    reject-IsAwarding id = elim (Result-cases (T.ensure_signed origin)) [
      | inr (e, unsigned) ↦ rw unsigned is
      | inl (who, signed) ↦ elim (Option-cases (Map.get s.store.applications id)) [
        | inl absent ↦ rw (signed, absent) is
        | inr (app, found) ↦ elim (Bool-cases (awaiting_review app.state)) [
          | inr done ↦ rw (signed, found, done) is
          | inl waits ↦ elim (Option-cases (Map.get s.store.foundations app.foundation_id)) [
            | inl gone ↦ rw (signed, found, waits, gone) is
            | inr (f, funded) ↦ elim (Bool-cases (is_sudo f.gov who)) [
              | inr stranger ↦ rw (signed, found, waits, funded, stranger) is
              | inl sudo ↦
                  rw (signed, found, waits, funded, sudo)
                    (remove_application-IsAwarding s.store is id
                      (unapproved_of s.store is id app found waits))
            ]
          ]
        ]
      ]
    ]
