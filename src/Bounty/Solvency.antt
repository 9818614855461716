-- ===== src/Bounty/Solvency.antt =====
-- The account of a bounty holds what the bounty promises.
use sunshine_node.Prelude.{
  ℕ, ◌≤◌, ◌≡◌, ◌≢◌, sym, ◌∙◌, subst, inl, inr, some, is_none, not, leb, ◌==◌, arith, Bool-cases,
  Option-cases, some-injective,
}
use sunshine_node.Word.{add128-eq, sub128-eq}
use sunshine_node.Storage.Map
use sunshine_node.Dispatch.{ok, Result-cases}
use sunshine_node.Util.Bounty.{
  BountyInformation, BountySubmission, SubmissionState, add_total, subtract_total, awaiting_review,
}
use sunshine_node.Runtime.{Config, CurrencyLaws}
use sunshine_node.Bounty.Base.{State, BountyTrait, bounty_generate_uid, submission_generate_uid}
use sunshine_node.Bounty.Calls.{
  post_bounty, contribute_to_bounty, submit_for_bounty, approve_bounty_submission,
}

-- Each bounty has an account of its own, from which nobody signs.
pub record Escrow (T : Config) (K : BountyTrait) : Type 0 where
  pub own_account : (i j : ℕ) → K.bounty_account_id i ≡ K.bounty_account_id j → i ≡ j
  pub no_signer :
      (origin : T.Origin) (who b : ℕ)
      → T.ensure_signed origin ≡ ok who
      → who ≢ K.bounty_account_id b

pub record IsSolvent (T : Config) (K : BountyTrait) (s : State T.Ledger) : Type 0 where
  pub funded :
      (b : ℕ) (x : BountyInformation)
      → Map.get s.store.bounties b ≡ some x
      → x.total ≤ T.total_balance s.base.ledger (K.bounty_account_id b)
  pub outside :
      (i : ℕ) (x : BountySubmission SubmissionState)
      → Map.get s.store.submissions i ≡ some x
      → (b : ℕ) → x.submitter ≢ K.bounty_account_id b

module _ (T : Config) (K : BountyTrait) (ed : ℕ) (laws : CurrencyLaws T ed) (escrow : Escrow T K)
    (s : State T.Ledger) (is : IsSolvent T K s) where
  abbrev account : ℕ → ℕ
  account = K.bounty_account_id

  abbrev held : T.Ledger → ℕ → ℕ
  held l b = T.total_balance l (account b)

  -- A bounty is written; the accounts of the others are as they were.
  written :
      (b : ℕ) (new : BountyInformation) (l : T.Ledger)
      → new.total ≤ held l b
      → ((c : ℕ) → c ≢ b → held l c ≡ held s.base.ledger c)
      → (c : ℕ) (x : BountyInformation) → Map.get (Map.insert s.store.bounties b new) c ≡ some x
      → x.total ≤ held l c
  written b new l enough same c x h = elim (Bool-cases (b == c)) [
    | inl self ↦ ground (arith, Map.get-insert s.store.bounties b c new)
    | inr other ↦
        subst (λ n. x.total ≤ n) (sym (same c (λ e. ground arith)))
          (is.funded c x (ground (arith, Map.get-insert s.store.bounties b c new)))
  ]

  apart : (c b : ℕ) → c ≢ b → account c ≢ account b
  apart c b ne e = ne (escrow.own_account c b e)

  -- A submission is written, whose submitter is no account of a bounty.
  submitted :
      (i : ℕ) (new : BountySubmission SubmissionState)
      → ((b : ℕ) → new.submitter ≢ account b)
      → (j : ℕ) (x : BountySubmission SubmissionState)
      → Map.get (Map.insert s.store.submissions i new) j ≡ some x
      → (b : ℕ) → x.submitter ≢ account b
  submitted i new clean j x h b = elim (Bool-cases (i == j)) [
    | inl self ↦
        subst (λ (y : BountySubmission SubmissionState). y.submitter ≢ account b)
          (some-injective new x (ground (arith, Map.get-insert s.store.submissions i j new)))
          (clean b)
    | inr other ↦ is.outside j x (ground (arith, Map.get-insert s.store.submissions i j new)) b
  ]

  module _ (origin : T.Origin) where
    -- Contributing: the money is moved into the account that the total counts.
    contributed :
        (who b amount : ℕ) (x : BountyInformation)
        → T.ensure_signed origin ≡ ok who
        → Map.get s.store.bounties b ≡ some x
        → (T.transfer who (account b) amount s.base.ledger).0 ≡ ok tt
        → (c : ℕ) (y : BountyInformation)
        → Map.get (Map.insert s.store.bounties b (add_total x amount)) c ≡ some y
        → y.total ≤ held (T.transfer who (account b) amount s.base.ledger).1 c
    contributed who b amount x signed found paid =
        let moved = laws.transfer_ok who (account b) amount s.base.ledger paid in
        let l = (T.transfer who (account b) amount s.base.ledger).1 in
        let received = moved.received (escrow.no_signer origin who b signed) in
        let range = laws.bounded l (account b) in
        let before = is.funded b x found in
        written b (add_total x amount) l (omega (arith, add128-eq x.total amount)) (λ c ne.
          moved.others (account c) (λ e. escrow.no_signer origin who c signed (sym e))
            (apart c b ne))

    pub contribute-IsSolvent :
        (b amount : ℕ) → IsSolvent T K (contribute_to_bounty T K origin b amount s).1
    unfolding contribute_to_bounty
    contribute-IsSolvent b amount = elim (Bool-cases (leb K.min_contribution amount)) [
      | inr low ↦ rw low is
      | inl enough ↦ elim (Result-cases (T.ensure_signed origin)) [
        | inr (e, unsigned) ↦ rw (enough, unsigned) is
        | inl (who, signed) ↦ elim (Option-cases (Map.get s.store.bounties b)) [
          | inl absent ↦ rw (enough, signed, absent) is
          | inr (x, found) ↦
              elim (Result-cases (T.transfer who (account b) amount s.base.ledger).0) [
                | inl paid ↦
                    rw (enough, signed, found, paid.1)
                      (record {
                        funded = contributed who b amount x signed found paid.1;
                        outside = is.outside;
                      })
                | inr (e, refused) ↦
                    rw (enough, signed, found, refused)
                      (record {
                        funded =
                            rw (laws.transfer_err who (account b) amount s.base.ledger e refused)
                              is.funded;
                        outside = is.outside;
                      })
              ]
        ]
      ]
    ]

    -- Posting: what is withdrawn from the depositer is in the account of the new bounty.
    posted_ledger : (who b amount : ℕ) → T.Ledger
    posted_ledger who b amount =
        T.resolve_creating (account b) amount (T.withdraw who amount s.base.ledger).1

    posted_others :
        (who b amount : ℕ)
        → T.ensure_signed origin ≡ ok who
        → (c : ℕ) → c ≢ b
        → held (posted_ledger who b amount) c ≡ held s.base.ledger c
    unfolding posted_ledger
    posted_others who b amount signed c ne =
        laws.resolve_others (account b) amount (T.withdraw who amount s.base.ledger).1 (account c)
          (apart c b ne)
        ∙ laws.withdraw_others who amount s.base.ledger (account c)
            (λ e. escrow.no_signer origin who c signed (sym e))

    refused_others :
        (who amount : ℕ)
        → T.ensure_signed origin ≡ ok who
        → (c : ℕ) → held (T.withdraw who amount s.base.ledger).1 c ≡ held s.base.ledger c
    refused_others who amount signed c =
        laws.withdraw_others who amount s.base.ledger (account c)
          (λ e. escrow.no_signer origin who c signed (sym e))

    posted :
        (who b info amount : ℕ)
        → T.ensure_signed origin ≡ ok who
        → (T.withdraw who amount s.base.ledger).0 ≡ ok tt
        → ed ≤ amount
        → (c : ℕ) (y : BountyInformation)
        → Map.get
            (Map.insert s.store.bounties b
              (record { id = b; info = info; depositer = who; total = amount }))
            c
          ≡ some y
        → y.total ≤ held (posted_ledger who b amount) c
    unfolding posted_ledger
    posted who b info amount signed taken big =
        written b (record { id = b; info = info; depositer = who; total = amount })
          (posted_ledger who b amount)
          (omega (
            arith,
            laws.deposited who (account b) amount s.base.ledger taken
                (escrow.no_signer origin who b signed) big,
          ))
          (posted_others who b amount signed)

    pub post-IsSolvent :
        (issue info amount : ℕ)
        → ed ≤ K.min_deposit
        → IsSolvent T K (post_bounty T K origin issue info amount s).1
    unfolding post_bounty bounty_generate_uid posted_ledger
    post-IsSolvent issue info amount least =
        elim (Bool-cases (is_none (Map.get s.store.issue_hash_set issue))) [
          | inr claimed ↦ rw claimed is
          | inl new ↦ elim (Bool-cases (leb K.min_deposit amount)) [
            | inr low ↦ rw (new, low) is
            | inl enough ↦ elim (Result-cases (T.ensure_signed origin)) [
              | inr (e, unsigned) ↦ rw (new, enough, unsigned) is
              | inl (who, signed) ↦ elim (Result-cases (T.withdraw who amount s.base.ledger).0) [
                | inr (e, refused) ↦
                    rw (new, enough, signed, refused)
                      (record {
                        funded = λ c x h.
                            subst (λ n. x.total ≤ n) (sym (refused_others who amount signed c))
                              (is.funded c x h);
                        outside = is.outside;
                      })
                | inl taken ↦
                    rw (new, enough, signed, taken.1)
                      (record {
                        funded = posted who _ info amount signed taken.1 (ground (arith, least));
                        outside = is.outside;
                      })
              ]
            ]
          ]
        ]

    pub submit-IsSolvent :
        (b issue submission_ref amount : ℕ)
        → IsSolvent T K (submit_for_bounty T K origin b issue submission_ref amount s).1
    unfolding submit_for_bounty submission_generate_uid
    submit-IsSolvent b issue submission_ref amount =
        elim (Bool-cases (is_none (Map.get s.store.issue_hash_set issue))) [
          | inr claimed ↦ rw claimed is
          | inl new ↦ elim (Option-cases (Map.get s.store.bounties b)) [
            | inl absent ↦ rw (new, absent) is
            | inr (x, found) ↦ elim (Result-cases (T.ensure_signed origin)) [
              | inr (e, unsigned) ↦ rw (new, found, unsigned) is
              | inl (who, signed) ↦ elim (Bool-cases (not (who == x.depositer))) [
                | inr own ↦ rw (new, found, signed, own) is
                | inl other ↦ elim (Bool-cases (leb amount x.total)) [
                  | inr much ↦ rw (new, found, signed, other, much) is
                  | inl covered ↦
                      rw (new, found, signed, other, covered)
                        (record {
                          funded = is.funded;
                          outside = submitted _ _ (λ c. escrow.no_signer origin who c signed);
                        })
                ]
              ]
            ]
          ]
        ]

    -- Approving: the payment leaves the account by as much as the total.
    approved :
        (i : ℕ) (sub : BountySubmission SubmissionState) (x : BountyInformation)
        → Map.get s.store.submissions i ≡ some sub
        → Map.get s.store.bounties sub.id.0 ≡ some x
        → sub.amount ≤ x.total
        → (T.transfer (account sub.id.0) sub.submitter sub.amount s.base.ledger).0 ≡ ok tt
        → (c : ℕ) (y : BountyInformation)
        → Map.get (Map.insert s.store.bounties sub.id.0 (subtract_total x sub.amount)) c ≡ some y
        → y.total ≤ held (T.transfer (account sub.id.0) sub.submitter sub.amount s.base.ledger).1 c
    approved i sub x stored found covered paid =
        let b = sub.id.0 in
        let moved = laws.transfer_ok (account b) sub.submitter sub.amount s.base.ledger paid in
        let sent = moved.sent (λ e. is.outside i sub stored b (sym e)) in
        let before = is.funded b x found in
        let range = laws.bounded s.base.ledger (account b) in
        written b (subtract_total x sub.amount)
          (T.transfer (account b) sub.submitter sub.amount s.base.ledger).1
          (omega (arith, sub128-eq x.total sub.amount))
          (λ c ne. moved.others (account c) (apart c b ne) (λ e. is.outside i sub stored c (sym e)))

    pub approve-IsSolvent : (i : ℕ) → IsSolvent T K (approve_bounty_submission T K origin i s).1
    unfolding approve_bounty_submission
    approve-IsSolvent i = elim (Result-cases (T.ensure_signed origin)) [
      | inr (e, unsigned) ↦ rw unsigned is
      | inl (who, signed) ↦ elim (Option-cases (Map.get s.store.submissions i)) [
        | inl absent ↦ rw (signed, absent) is
        | inr (sub, stored) ↦ elim (Bool-cases (awaiting_review sub.state)) [
          | inr done ↦ rw (signed, stored, done) is
          | inl waits ↦ elim (Option-cases (Map.get s.store.bounties sub.id.0)) [
            | inl gone ↦ rw (signed, stored, waits, gone) is
            | inr (x, found) ↦ elim (Bool-cases (leb sub.amount x.total)) [
              | inr much ↦ rw (signed, stored, waits, found, much) is
              | inl covered ↦ elim (Bool-cases (x.depositer == who)) [
                | inr stranger ↦ rw (signed, stored, waits, found, covered, stranger) is
                | inl owner ↦
                    elim (Result-cases
                      (T.transfer (account sub.id.0) sub.submitter sub.amount s.base.ledger).0) [
                        | inr (e, refused) ↦
                            rw (signed, stored, waits, found, covered, owner, refused)
                              (record {
                                funded =
                                    rw
                                      (laws.transfer_err (account sub.id.0) sub.submitter sub.amount
                                        s.base.ledger e refused)
                                      is.funded;
                                outside = is.outside;
                              })
                        | inl paid ↦
                            rw (signed, stored, waits, found, covered, owner, paid.1)
                              (record {
                                funded = approved i sub x stored found (ground arith) paid.1;
                                outside = λ j y h.
                                    is.outside j y
                                      (ground (arith, Map.get-remove s.store.submissions i j));
                              })
                      ]
              ]
            ]
          ]
        ]
      ]
    ]
