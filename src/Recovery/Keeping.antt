-- ===== src/Recovery/Keeping.antt =====
-- Every call of the recovery pallet keeps the histories in order.
use sunshine_node.Prelude.{
  ℕ, ◌+◌, length, ◌≡◌, sym, subst, inl, inr, not, none, some, List, [], ◌∷◌, arith, ltb, ltb→lt,
  ◌==◌, ==_iff, ◌&&◌, Bool-cases, Option-cases, some-injective,
}
use sunshine_node.Word.{add64}
use sunshine_node.Storage.Fresh.{next_free}
use sunshine_node.Storage.Map
use sunshine_node.Storage.DoubleMap
use sunshine_node.Storage.DoubleMap.{DoubleMap}
use sunshine_node.Dispatch.{Result-cases}
use sunshine_node.Util.Recovery.{Commit, Relation, RelationState, is_reserved, set_reserved, reveal}
use sunshine_node.Runtime.{Config}
use sunshine_node.Recovery.Base.{
  State, RecoveryStore, RecoveryTrait, generate_secret_uid, pop, push, is_unused, is_pending,
}
use sunshine_node.Recovery.Calls.{
  invite_each, invite_group, revoke_invitation, increment_round, request_recovery, report_recovery,
  report_failure_and_close, commit_hash, reveal_preimage,
}
use sunshine_node.Recovery.Histories.{
  IsAscending, IsHonest, first-IsHonest, next-IsHonest, revealed-IsHonest,
}

-- `OrderedSet::from_sorted_set` takes a sorted vector as it is.
pub record OrderedCommitsLaws (K : RecoveryTrait) : Type 0 where
  pub sorted_as_is : (l : List Commit) → IsAscending l → K.from_sorted_set l ≡ l

-- Every keeper's history is in order, and shows only shares that were committed to.
abbrev pub IsKept : (ℕ → ℕ) → DoubleMap Relation → Type 0
IsKept hash m = (id a : ℕ) (r : Relation) → DoubleMap.get m id a ≡ some r → IsHonest hash r.history

module _ (hash : ℕ → ℕ) (m : DoubleMap Relation) (is : IsKept hash m) where
  insert-IsKept :
      (id a : ℕ) (r : Relation) → IsHonest hash r.history → IsKept hash (DoubleMap.insert m id a r)
  insert-IsKept id a r honest i b q h = elim (Bool-cases (id == i && a == b)) [
    | inl self ↦
        subst (λ (x : Relation). IsHonest hash x.history)
          (some-injective r q (ground (arith, h, DoubleMap.get-insert m id a i b r))) honest
    | inr other ↦ is i b q (ground (arith, h, DoubleMap.get-insert m id a i b r))
  ]

  remove-IsKept : (id a : ℕ) → IsKept hash (DoubleMap.remove m id a)
  remove-IsKept id a i b q h = is i b q (ground (arith, h, DoubleMap.get-remove m id a i b))

  remove_prefix-IsKept : (id : ℕ) → IsKept hash (DoubleMap.remove_prefix m id)
  remove_prefix-IsKept id i b q h =
      is i b q (ground (arith, h, DoubleMap.get-remove_prefix m id i b))

invite_each-IsKept :
    (hash : ℕ → ℕ) (id : ℕ) (l : List ℕ) (m : DoubleMap Relation)
    → IsKept hash m
    → IsKept hash (invite_each id l m)
unfolding invite_each
invite_each-IsKept hash id [] m is = is
invite_each-IsKept hash id (a ∷ l) m is = invite_each-IsKept hash id l _ (
    insert-IsKept hash m is id a
      (record { key = (id, a); history = []; state = RelationState.unreserved })
      (record { ascending = tt; opened = tt }))

abbrev fresh : RecoveryStore → ℕ
fresh s = next_free (length s.secrets + 1) s.secrets (add64 s.secret_id_counter 1)

module _ (T : Config) (K : RecoveryTrait) (laws : OrderedCommitsLaws K) (s : State T.Ledger)
    (is : IsKept K.hash s.store.commits) (origin : T.Origin) where
  pub invite-IsKept :
      (amount req : ℕ) (accounts : List ℕ)
      → IsKept K.hash (invite_group T K origin amount req accounts s).1.store.commits
  unfolding invite_group generate_secret_uid
  invite-IsKept amount req accounts = elim (Result-cases (T.ensure_signed origin)) [
    | inr (e, unsigned) ↦ rw unsigned is
    | inl (who, signed) ↦ elim (Bool-cases (ltb amount (T.free_balance s.base.ledger who))) [
      | inr poor ↦ rw (signed, poor) is
      | inl rich ↦
          elim (Result-cases
            (T.transfer who (K.secret_account_id (fresh s.store)) amount s.base.ledger).0) [
              | inr (e, refused) ↦ rw (signed, rich, refused) is
              | inl paid ↦
                  rw (signed, rich, paid.1)
                    (invite_each-IsKept K.hash (fresh s.store) (T.ordered_set accounts)
                      s.store.commits is)
            ]
    ]
  ]

  pub revoke-IsKept :
      (id account : ℕ) → IsKept K.hash (revoke_invitation T K origin id account s).1.store.commits
  unfolding revoke_invitation
  revoke-IsKept id account = elim (Result-cases (T.ensure_signed origin)) [
    | inr (e, unsigned) ↦ rw unsigned is
    | inl (who, signed) ↦ elim (Option-cases (Map.get s.store.secrets id)) [
      | inl absent ↦ rw (signed, absent) is
      | inr (secret, found) ↦ elim (Bool-cases (secret.user == who)) [
        | inr other ↦ rw (signed, found, other) is
        | inl own ↦ rw (signed, found, own) (remove-IsKept K.hash s.store.commits is id account)
      ]
    ]
  ]

  -- These write to the secrets alone.
  pub rounds-IsKept :
      (id : ℕ)
      → IsKept K.hash (increment_round T K origin id s).1.store.commits
        × IsKept K.hash (request_recovery T K origin id s).1.store.commits
        × IsKept K.hash (report_recovery T K origin id s).1.store.commits
  unfolding increment_round request_recovery report_recovery
  rounds-IsKept id = elim (Result-cases (T.ensure_signed origin)) [
    | inr (e, unsigned) ↦ rw unsigned (is, is, is)
    | inl (who, signed) ↦ elim (Option-cases (Map.get s.store.secrets id)) [
      | inl absent ↦ rw (signed, absent) (is, is, is)
      | inr (secret, found) ↦ elim (Bool-cases (secret.user == who)) [
        | inr other ↦ rw (signed, found, other) (is, is, is)
        | inl own ↦
            rw (signed, found, own)
              (
                elim (Bool-cases (not (is_pending secret.state))) [
                  | inr pending ↦ rw pending is
                  | inl free ↦ rw free is
                ],
                elim (Bool-cases (is_unused secret.state)) [
                  | inr used ↦ rw used is
                  | inl unused ↦ rw unused is
                ],
                elim (Bool-cases (is_pending secret.state)) [
                  | inr early ↦ rw early is
                  | inl pending ↦ rw pending is
                ],
              )
      ]
    ]
  ]

  pub close-IsKept :
      (id : ℕ) → IsKept K.hash (report_failure_and_close T K origin id s).1.store.commits
  unfolding report_failure_and_close
  close-IsKept id = elim (Result-cases (T.ensure_signed origin)) [
    | inr (e, unsigned) ↦ rw unsigned is
    | inl (who, signed) ↦ elim (Option-cases (Map.get s.store.secrets id)) [
      | inl absent ↦ rw (signed, absent) is
      | inr (secret, found) ↦ elim (Bool-cases (secret.user == who)) [
        | inr other ↦ rw (signed, found, other) is
        | inl own ↦ elim (Bool-cases (is_pending secret.state)) [
          | inr early ↦ rw (signed, found, own, early) is
          | inl pending ↦
              rw (signed, found, own, pending) (remove_prefix-IsKept K.hash s.store.commits is id)
        ]
      ]
    ]
  ]

  -- A history that is in order is written.
  put-IsKept :
      (id a : ℕ) (r : Relation) (l : List Commit)
      → IsHonest K.hash l
      → IsKept K.hash
          (DoubleMap.insert s.store.commits id a (record r { history = K.from_sorted_set l }))
  put-IsKept id a r l honest =
      insert-IsKept K.hash s.store.commits is id a (record r { history = K.from_sorted_set l })
        (subst (IsHonest K.hash) (sym (laws.sorted_as_is l honest.ascending)) honest)

  pub reveal-IsKept :
      (id preimage : ℕ) → IsKept K.hash (reveal_preimage T K origin id preimage s).1.store.commits
  unfolding reveal_preimage
  reveal-IsKept id preimage = elim (Result-cases (T.ensure_signed origin)) [
    | inr (e, unsigned) ↦ rw unsigned is
    | inl (who, signed) ↦ elim (Option-cases (Map.get s.store.secrets id)) [
      | inl absent ↦ rw (signed, absent) is
      | inr (secret, found) ↦ elim (Bool-cases (is_pending secret.state)) [
        | inr early ↦ rw (signed, found, early) is
        | inl pending ↦ elim (Option-cases (DoubleMap.get s.store.commits id who)) [
          | inl stranger ↦ rw (signed, found, pending, stranger) is
          | inr (r, keeper) ↦ elim (Option-cases (pop r.history)) [
            | inl empty ↦ rw (signed, found, pending, keeper, empty) is
            | inr ((rest, last), taken) ↦ elim (Bool-cases (last.round_id == secret.round)) [
              | inr old ↦ rw (signed, found, pending, keeper, taken, old) is
              | inl now ↦ elim (Bool-cases (K.hash preimage == last.hash)) [
                | inr wrong ↦ rw (signed, found, pending, keeper, taken, now, wrong) is
                | inl opens ↦ elim (Option-cases (reveal last preimage)) [
                  | inl again ↦ rw (signed, found, pending, keeper, taken, now, opens, again) is
                  | inr (new, done) ↦
                      rw (signed, found, pending, keeper, taken, now, opens, done)
                        (put-IsKept id who r (push rest new) (
                          revealed-IsHonest K.hash r.history rest last new preimage taken
                            ((==_iff (K.hash preimage) last.hash).0 opens) done
                            (is id who r keeper)))
                ]
              ]
            ]
          ]
        ]
      ]
    ]
  ]

  -- The histories that a commit makes.
  abbrev committed : ℕ → ℕ → Commit
  committed round h = record { round_id = round; hash = h; preimage = none }

  pub commit-IsKept : (id h : ℕ) → IsKept K.hash (commit_hash T K origin id h s).1.store.commits
  unfolding commit_hash
  commit-IsKept id h = elim (Result-cases (T.ensure_signed origin)) [
    | inr (e, unsigned) ↦ rw unsigned is
    | inl (who, signed) ↦ elim (Option-cases (Map.get s.store.secrets id)) [
      | inl absent ↦ rw (signed, absent) is
      | inr (secret, found) ↦ elim (Bool-cases (is_unused secret.state)) [
        | inr used ↦ rw (signed, found, used) is
        | inl unused ↦ elim (Option-cases (DoubleMap.get s.store.commits id who)) [
          | inl stranger ↦ rw (signed, found, unused, stranger) is
          | inr (r, keeper) ↦ elim (Bool-cases (is_reserved r)) [
            | inl reserved ↦ elim (Option-cases (pop r.history)) [
              | inl empty ↦
                  rw (signed, found, unused, keeper, reserved, empty)
                    (put-IsKept id who r _ (first-IsHonest K.hash secret.round h))
              | inr ((rest, last), taken) ↦ elim (Bool-cases (ltb last.round_id secret.round)) [
                | inr again ↦ rw (signed, found, unused, keeper, reserved, taken, again) is
                | inl later ↦
                    rw (signed, found, unused, keeper, reserved, taken, later)
                      (put-IsKept id who r _ (
                        next-IsHonest K.hash r.history rest last secret.round h taken
                          (ltb→lt _ _ later) (is id who r keeper)))
              ]
            ]
            | inr free ↦ elim (Result-cases (T.reserve who secret.reserve_req s.base.ledger).0) [
              | inr (e, poor) ↦ rw (signed, found, unused, keeper, free, poor) is
              | inl paid ↦ elim (Option-cases (pop r.history)) [
                | inl empty ↦
                    rw (signed, found, unused, keeper, free, paid.1, empty)
                      (put-IsKept id who (set_reserved r) _ (first-IsHonest K.hash secret.round h))
                | inr ((rest, last), taken) ↦ elim (Bool-cases (ltb last.round_id secret.round)) [
                  | inr again ↦ rw (signed, found, unused, keeper, free, paid.1, taken, again) is
                  | inl later ↦
                      rw (signed, found, unused, keeper, free, paid.1, taken, later)
                        (put-IsKept id who (set_reserved r) _ (
                          next-IsHonest K.hash r.history rest last secret.round h taken
                            (ltb→lt _ _ later) (is id who r keeper)))
                ]
              ]
            ]
          ]
        ]
      ]
    ]
  ]
