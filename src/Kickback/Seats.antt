-- ===== src/Kickback/Seats.antt =====
-- What each call of the kickback pallet does to the seats: an event counts its reservations, and never
-- has more than its limit.
use sunshine_node.Prelude.{
  ℕ, ◌+◌, ◌≤◌, ◌<◌, ◌≡◌, refl, sym, subst, inl, inr, not, Option, none, some, List, length, leb,
  leb→le, arith, ◌==◌, Bool-cases, Option-cases, some-injective,
}
use sunshine_node.Word.{u32_mod, u64_mod, add32, add32-eq}
use sunshine_node.Storage.Map
use sunshine_node.Storage.DoubleMap
use sunshine_node.Storage.DoubleMap.{
  DoubleMap, length-iter_prefix-insert, length-iter_prefix-remove_prefix,
}
use sunshine_node.Storage.Fresh.{next_id_fresh}
use sunshine_node.Dispatch.{Result-cases}
use sunshine_node.Util.Kickback.{KickbackEvent, increment_attendance}
use sunshine_node.Util.Kickback
use sunshine_node.Runtime.{Config}
use sunshine_node.Kickback.{
  State, KickbackStore, KickbackTrait, kickback_event_generate_uid, post_kickback_event,
  reserve_seat, present_of, drain_into_accounts, publish_attendance_and_execute_redistribution,
}
use sunshine_node.Kickback.Drain.{drain-store}

abbrev pub seats : Option KickbackEvent → ℕ
seats none = 0
seats (some k) = k.expected_attendance

abbrev pub reservations : KickbackStore → ℕ → ℕ
reservations s id = length (DoubleMap.iter_prefix s.kickback_reservations id)

-- The attendance that an event expects is the number of its reservations, within its limit.
pub record IsSeated (K : KickbackTrait) (s : KickbackStore) : Type 0 where
  pub counted : (id : ℕ) → reservations s id ≡ seats (Map.get s.kickback_events id)
  pub limited :
      (id : ℕ) (k : KickbackEvent)
      → Map.get s.kickback_events id ≡ some k
      → (k.expected_attendance ≤ k.attendance_limit) × (k.attendance_limit ≤ K.max_attendance)

-- The counter and the events leave an identifier.
abbrev pub HasRoom : KickbackStore → Type 0
HasRoom s = s.kickback_event_nonce + 1 + length s.kickback_events < u64_mod

increment_cases :
    (k n : KickbackEvent)
    → increment_attendance k ≡ some n
    → k.expected_attendance + 1 < u32_mod
    → (n.expected_attendance ≡ k.expected_attendance + 1)
      × (n.attendance_limit ≡ k.attendance_limit)
      × (k.expected_attendance + 1 ≤ k.attendance_limit)
increment_cases k n h fits =
    elim (Bool-cases (leb (add32 k.expected_attendance 1) k.attendance_limit)) [
      | inr full ↦ ground (arith, h, full)
      | inl free ↦
          let e = add32-eq k.expected_attendance 1 fits in
          subst
            (λ (x : KickbackEvent).
              (x.expected_attendance ≡ k.expected_attendance + 1)
              × (x.attendance_limit ≡ k.attendance_limit)
              × (k.expected_attendance + 1 ≤ k.attendance_limit))
            (some-injective (record k { expected_attendance = add32 k.expected_attendance 1 }) n
              (rw free at h))
            (e, refl, subst (λ m. m ≤ k.attendance_limit) e (leb→le _ _ free))
    ]

module _ (T : Config) (K : KickbackTrait) (small : K.max_attendance + 1 < u32_mod)
    (s : State T.Ledger) (is : IsSeated K s.store) (origin : T.Origin) where
  posted :
      (id : ℕ) (nonce : ℕ) (k : KickbackEvent)
      → Map.get s.store.kickback_events id ≡ none
      → k.expected_attendance ≡ 0
      → k.attendance_limit ≤ K.max_attendance
      → IsSeated K (record s.store {
        kickback_event_nonce = nonce;
        kickback_events = Map.insert s.store.kickback_events id k;
      })
  posted id nonce k free empty low = record {
    counted = λ i. ground (arith, is.counted i, Map.get-insert s.store.kickback_events id i k);
    limited = λ i q h. elim (Bool-cases (id == i)) [
      | inl self ↦
          subst
            (λ (x : KickbackEvent).
              (x.expected_attendance ≤ x.attendance_limit)
              × (x.attendance_limit ≤ K.max_attendance))
            (some-injective k q (ground (arith, h, Map.get-insert s.store.kickback_events id i k)))
            (omega arith, low)
      | inr other ↦
          is.limited i q (ground (arith, h, Map.get-insert s.store.kickback_events id i k))
    ];
  }

  reserved :
      (id who : ℕ) (k n : KickbackEvent)
      → Map.get s.store.kickback_events id ≡ some k
      → DoubleMap.get s.store.kickback_reservations id who ≡ none
      → increment_attendance k ≡ some n
      → IsSeated K (record s.store {
        kickback_reservations = DoubleMap.insert s.store.kickback_reservations id who tt;
        kickback_events = Map.insert s.store.kickback_events id n;
      })
  reserved id who k n found new grown =
      let (low, bound) = is.limited id k found in
      let (more, same, enough) = increment_cases k n grown (omega arith) in
      record {
        counted = λ i. ground (
          arith,
          is.counted i,
          Map.get-insert s.store.kickback_events id i n,
          length-iter_prefix-insert s.store.kickback_reservations id who i tt new,
          more,
        );
        limited = λ i q h. elim (Bool-cases (id == i)) [
          | inl self ↦
              subst
                (λ (x : KickbackEvent).
                  (x.expected_attendance ≤ x.attendance_limit)
                  × (x.attendance_limit ≤ K.max_attendance))
                (some-injective n q
                  (ground (arith, h, Map.get-insert s.store.kickback_events id i n)))
                (omega arith, omega arith)
          | inr other ↦
              is.limited i q (ground (arith, h, Map.get-insert s.store.kickback_events id i n))
        ];
      }

  closed :
      (id : ℕ)
      → IsSeated K (record s.store {
        kickback_events = Map.remove s.store.kickback_events id;
        kickback_reservations = DoubleMap.remove_prefix s.store.kickback_reservations id;
      })
  closed id = record {
    counted = λ i. ground (
      arith,
      is.counted i,
      Map.get-remove s.store.kickback_events id i,
      length-iter_prefix-remove_prefix s.store.kickback_reservations id i,
    );
    limited =
        λ i q h. is.limited i q (ground (arith, h, Map.get-remove s.store.kickback_events id i));
  }

  -- Those who reserved a seat and came.
  abbrev came : ℕ → List ℕ → List ℕ
  came id present =
      present_of (K.finds present) (DoubleMap.iter_prefix s.store.kickback_reservations id)

  pub post-IsSeated :
      (info reservation_req limit : ℕ)
      → HasRoom s.store
      → IsSeated K (post_kickback_event T K origin info reservation_req limit s).1.store
  unfolding post_kickback_event kickback_event_generate_uid
  post-IsSeated info reservation_req limit room = elim (Result-cases (T.ensure_signed origin)) [
    | inr (e, unsigned) ↦ rw unsigned is
    | inl (who, signed) ↦ elim (Bool-cases (leb K.min_reservation_req reservation_req)) [
      | inr cheap ↦ rw (signed, cheap) is
      | inl dear ↦ elim (Bool-cases (leb limit K.max_attendance)) [
        | inr many ↦ rw (signed, dear, many) is
        | inl few ↦
            rw (signed, dear, few)
              (posted _ _ (Kickback.new info who reservation_req limit)
                (next_id_fresh s.store.kickback_events s.store.kickback_event_nonce room).1 refl
                (leb→le _ _ few))
      ]
    ]
  ]

  pub reserve-IsSeated : (id : ℕ) → IsSeated K (reserve_seat T K origin id s).1.store
  unfolding reserve_seat
  reserve-IsSeated id = elim (Result-cases (T.ensure_signed origin)) [
    | inr (e, unsigned) ↦ rw unsigned is
    | inl (who, signed) ↦ elim (Option-cases (Map.get s.store.kickback_events id)) [
      | inl absent ↦ rw (signed, absent) is
      | inr (k, found) ↦ elim (Option-cases (DoubleMap.get s.store.kickback_reservations id who)) [
        | inr (u, again) ↦ rw (signed, found, again) is
        | inl new ↦ elim (Option-cases (increment_attendance k)) [
          | inl full ↦ rw (signed, found, new, full) is
          | inr (n, grown) ↦
              elim (Result-cases
                (T.transfer who (K.event_account_id id) k.reservation_req s.base.ledger).0) [
                  | inr (e, poor) ↦ rw (signed, found, new, grown, poor) is
                  | inl paid ↦
                      rw (signed, found, new, grown, paid.1) (reserved id who k n found new grown)
                ]
        ]
      ]
    ]
  ]

  pub publish-IsSeated :
      (id : ℕ) (present : List ℕ)
      → IsSeated K (publish_attendance_and_execute_redistribution T K origin id present s).1.store
  unfolding publish_attendance_and_execute_redistribution
  publish-IsSeated id present = elim (Bool-cases (not (length present == 0))) [
    | inr nobody ↦ rw nobody is
    | inl some_present ↦ elim (Result-cases (T.ensure_signed origin)) [
      | inr (e, unsigned) ↦ rw (some_present, unsigned) is
      | inl (who, signed) ↦ elim (Option-cases (Map.get s.store.kickback_events id)) [
        | inl absent ↦ rw (some_present, signed, absent) is
        | inr (k, found) ↦ elim (Bool-cases (k.supervisor == who)) [
          | inr stranger ↦ rw (some_present, signed, found, stranger) is
          | inl own ↦ elim (Bool-cases (not (length (came id present) == 0))) [
            | inr none_came ↦ rw (some_present, signed, found, own, none_came) is
            | inl some_came ↦
                let drained =
                  drain_into_accounts T K (K.event_account_id id) (came id present) who s in
                let kept = drain-store T K (K.event_account_id id) who s (came id present) in
                elim (Result-cases drained.0) [
                  | inr (e, failed) ↦
                      rw (some_present, signed, found, own, some_came, failed)
                        (subst (IsSeated K) (sym kept) is)
                  | inl ((given, left), done) ↦
                      rw (some_present, signed, found, own, some_came, done) (rw kept (closed id))
                ]
          ]
        ]
      ]
    ]
  ]
