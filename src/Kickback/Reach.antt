-- ===== src/Kickback/Reach.antt =====
-- The calls of the kickback pallet as a step relation, and the seats of every reachable state.
use sunshine_node.Prelude.{
  ℕ, ◌+◌, ◌≤◌, ◌<◌, ◌≡◌, ap, ◌∙◌, sym, subst, some, List, [], length, arith,
}
use sunshine_node.Word.{u32_mod}
use sunshine_node.Storage.Map
use sunshine_node.Storage.DoubleMap
use sunshine_node.Util.Kickback.{KickbackEvent}
use sunshine_node.Runtime.{Config, Money}
use sunshine_node.Kickback.{
  State, KickbackStore, KickbackTrait, post_kickback_event, reserve_seat,
  publish_attendance_and_execute_redistribution,
}
use sunshine_node.Kickback.Seats.{
  IsSeated, HasRoom, seats, post-IsSeated, reserve-IsSeated, publish-IsSeated,
}

-- What can happen to the pallet: its calls, in any order and by anybody, as long as identifiers are
-- left, and between them whatever other pallets do to the currency.
pub data Step (T : Config) (K : KickbackTrait) (s : State T.Ledger) : State T.Ledger → Type 0 where
  post :
      (origin : T.Origin) (info reservation_req limit : ℕ)
      → HasRoom s.store
      → Step T K s (post_kickback_event T K origin info reservation_req limit s).1
  reserve : (origin : T.Origin) (id : ℕ) → Step T K s (reserve_seat T K origin id s).1
  publish :
      (origin : T.Origin) (id : ℕ) (present : List ℕ)
      → Step T K s (publish_attendance_and_execute_redistribution T K origin id present s).1
  elsewhere : (base : Money T.Ledger) → Step T K s (record s { base = base })

pub data Reachable (T : Config) (K : KickbackTrait) : State T.Ledger → Type 0 where
  begin :
      (s : State T.Ledger)
      → s.store.kickback_events ≡ []
      → s.store.kickback_reservations ≡ []
      → Reachable T K s
  next : {s t : State T.Ledger} → Reachable T K s → Step T K s t → Reachable T K t

abbrev empty : ℕ → KickbackStore
empty nonce = record {
  kickback_event_nonce = nonce;
  kickback_events = [];
  kickback_reservations = [];
}

empty-IsSeated : (K : KickbackTrait) (nonce : ℕ) → IsSeated K (empty nonce)
unfolding Map.get DoubleMap.iter_prefix
empty-IsSeated K nonce = record { counted = λ id. omega arith; limited = λ id k h. ground arith }

module _ (T : Config) (K : KickbackTrait) (small : K.max_attendance + 1 < u32_mod) where
  Step-IsSeated : {s t : State T.Ledger} → Step T K s t → IsSeated K s.store → IsSeated K t.store
  Step-IsSeated {s} (post origin info reservation_req limit room) is =
      post-IsSeated T K small s is origin info reservation_req limit room
  Step-IsSeated {s} (reserve origin id) is = reserve-IsSeated T K small s is origin id
  Step-IsSeated {s} (publish origin id present) is =
      publish-IsSeated T K small s is origin id present
  Step-IsSeated {s} (elsewhere base) is = is

  -- In every state that the calls of the pallet lead to from one without events, in any order and by
  -- anybody, the attendance that an event expects is the number of its reservations, at most its
  -- limit, which is at most the limit of the pallet. It asks that the limit of the pallet is below
  -- the largest u32, and is about events that find an identifier that is left.
  pub Reachable-seated :
      {s : State T.Ledger}
      → Reachable T K s
      → (id : ℕ) (k : KickbackEvent) → Map.get s.store.kickback_events id ≡ some k
      → (length (DoubleMap.iter_prefix s.store.kickback_reservations id) ≡ k.expected_attendance)
        × (k.expected_attendance ≤ k.attendance_limit)
        × (k.attendance_limit ≤ K.max_attendance)
  Reachable-seated {s} r id k h =
      let is = seated r in
      let (low, bound) = is.limited id k h in (is.counted id ∙ ap seats h, low, bound)
    where
      seated : {s : State T.Ledger} → Reachable T K s → IsSeated K s.store
      seated (begin s no_event no_seat) =
          subst (λ e. IsSeated K (record s.store { kickback_events = e })) (sym no_event)
            (subst
              (λ e. IsSeated K (record s.store { kickback_events = []; kickback_reservations = e }))
              (sym no_seat) (empty-IsSeated K s.store.kickback_event_nonce))
      seated (next r st) = Step-IsSeated st (seated r)
