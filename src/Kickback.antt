-- ===== src/Kickback.antt =====
-- pallets/kickback/src/lib.rs: seats at an event are reserved by a payment, which is divided among
-- those who were present.
pub mod Seats
pub mod Drain
pub mod Reach
use sunshine_node.Prelude.{
  ℕ, ◌+◌, ◌%◌, Bool, not, is_none, none, some, List, [], ◌∷◌, length, leb, ◌==◌, if◌then◌else◌,
}
use sunshine_node.Word.{u32_mod, add64, sub128}
use sunshine_node.Storage.Map
use sunshine_node.Storage.Map.{Map}
use sunshine_node.Storage.DoubleMap
use sunshine_node.Storage.DoubleMap.{DoubleMap}
use sunshine_node.Storage.Fresh.{next_free}
use sunshine_node.Dispatch.{DispatchError, KickbackError}
use sunshine_node.Exec.{Exec, pure, gets, lift, ok_or, ensure, ◌>>=◌, ◌>>◌}
use sunshine_node.Util.Kickback
use sunshine_node.Util.Kickback.{KickbackEvent, increment_attendance}
use sunshine_node.Runtime.{Config, Pallet, Money, on_store, on_money, post}

pub data Notice : Type 0 where
  event_posted : ℕ → ℕ → ℕ → ℕ → Notice
  event_seat_reserved : ℕ → ℕ → Notice
  event_closed : ℕ → ℕ → ℕ → ℕ → Notice

pub record KickbackStore : Type 0 where
  pub kickback_event_nonce : ℕ
  pub kickback_events : Map KickbackEvent
  pub kickback_reservations : DoubleMap (Unit {0})

abbrev pub State : Type 0 → Type 0
State L = Pallet (Money L) KickbackStore Notice

-- `finds present account` is `present.binary_search(&account).is_ok()`.
pub record KickbackTrait : Type 0 where
  pub event_account_id : ℕ → ℕ
  pub min_reservation_req : ℕ
  pub max_attendance : ℕ
  pub finds : List ℕ → ℕ → Bool

unfoldable pub kickback_event_id_is_available : KickbackStore → ℕ → Bool
kickback_event_id_is_available s id = is_none (Map.get s.kickback_events id)

abbrev fail : KickbackError → DispatchError
fail = DispatchError.kickback

-- The filter of the reservations, and the accounts that it leaves.
unfoldable pub present_of : (ℕ → Bool) → Map (Unit {0}) → List ℕ
present_of found [] = []
present_of found ((account, _) ∷ m) =
    let rest = present_of found m in if found account then account ∷ rest else rest

module _ {L : Type 0} where
  -- The loop has one round more than there are events.
  unfoldable pub kickback_event_generate_uid : Exec (State L) ℕ
  kickback_event_generate_uid = do
    s ← gets (λ s. s.store)
    let id_counter =
        next_free (length s.kickback_events + 1) s.kickback_events (add64 s.kickback_event_nonce 1)
    on_store (λ s. record s { kickback_event_nonce = id_counter })
    pure id_counter

module _ (T : Config) (K : KickbackTrait) where
  open T use {
    Origin, ensure_signed, total_balance, transfer, transfer_allow_death,
    from_rational_approximation, mul_floor,
  }
  open K use {event_account_id, min_reservation_req, max_attendance, finds}

  unfoldable pub post_kickback_event : Origin → ℕ → ℕ → ℕ → Exec (State T.Ledger) (Unit {0})
  unfolding kickback_event_generate_uid
  post_kickback_event origin info reservation_req attendance_limit = do
    supervisor ← lift (ensure_signed origin)
    ensure (leb min_reservation_req reservation_req)
        (fail KickbackError.event_reservation_req_below_module_min)
    ensure (leb attendance_limit max_attendance)
        (fail KickbackError.event_attendance_limit_above_module_max)
    let kickback_event = Kickback.new info supervisor reservation_req attendance_limit
    id ← kickback_event_generate_uid
    on_store (λ s. record s { kickback_events = Map.insert s.kickback_events id kickback_event })
    post (Notice.event_posted supervisor reservation_req id info)

  unfoldable pub reserve_seat : Origin → ℕ → Exec (State T.Ledger) (Unit {0})
  reserve_seat origin event_id = do
    reserver ← lift (ensure_signed origin)
    s ← gets (λ s. s.store)
    kickback_event ←
        ok_or (Map.get s.kickback_events event_id) (fail KickbackError.kickback_event_dne)
    ensure (is_none (DoubleMap.get s.kickback_reservations event_id reserver))
        (fail KickbackError.already_made_reservation)
    new_event ←
        ok_or (increment_attendance kickback_event) (fail KickbackError.attendance_limit_reached)
    on_money (transfer reserver (event_account_id event_id) kickback_event.reservation_req)
    on_store (λ s. record s {
      kickback_reservations = DoubleMap.insert s.kickback_reservations event_id reserver tt;
      kickback_events = Map.insert s.kickback_events event_id new_event;
    })
    post (Notice.event_seat_reserved event_id reserver)

  -- The loop over the accounts; it stops at the first error.
  unfoldable pub pay_each : ℕ → ℕ → List ℕ → ℕ → Exec (State T.Ledger) ℕ
  pay_each from equal_amt [] total = pure total
  pay_each from equal_amt (acc ∷ rest) total = do
    on_money (transfer_allow_death from acc equal_amt)
    pay_each from equal_amt rest (sub128 total equal_amt)

  abbrev pub drain_shared : ℕ → List ℕ → ℕ → ℕ → ℕ → Exec (State T.Ledger) (ℕ × ℕ)
  drain_shared from accounts remainder_recipient total num_of_accounts = do
    let equal_amt = mul_floor (from_rational_approximation 1 num_of_accounts) total
    rest ← pay_each from equal_amt accounts total
    on_money (transfer_allow_death from remainder_recipient rest)
    pure (equal_amt, rest)

  abbrev pub drain_from : ℕ → List ℕ → ℕ → ℕ → ℕ → Exec (State T.Ledger) (ℕ × ℕ)
  drain_from from [] remainder_recipient total num_of_accounts =
      drain_shared from [] remainder_recipient total num_of_accounts
  drain_from from (first ∷ others) remainder_recipient total num_of_accounts =
      if num_of_accounts == 1
      then (do on_money (transfer_allow_death from first total); pure (total, 0))
      else drain_shared from (first ∷ others) remainder_recipient total num_of_accounts

  -- What each account gets and what is left for the recipient of the remainder.
  unfoldable pub drain_into_accounts : ℕ → List ℕ → ℕ → Exec (State T.Ledger) (ℕ × ℕ)
  unfolding pay_each
  drain_into_accounts from accounts remainder_recipient = do
    total ← gets (λ s. total_balance s.base.ledger from)
    let num_of_accounts = length accounts % u32_mod
    drain_from from accounts remainder_recipient total num_of_accounts

  unfoldable pub publish_attendance_and_execute_redistribution :
      Origin → ℕ → List ℕ → Exec (State T.Ledger) (Unit {0})
  unfolding drain_into_accounts present_of
  publish_attendance_and_execute_redistribution origin id present = do
    ensure (not (length present == 0)) (fail KickbackError.attendance_must_be_greater_than_zero)
    publisher ← lift (ensure_signed origin)
    s ← gets (λ s. s.store)
    k ← ok_or (Map.get s.kickback_events id) (fail KickbackError.kickback_event_dne)
    ensure (k.supervisor == publisher) (fail KickbackError.not_authorized_to_publish_attendance)
    let present_members =
        present_of (finds present) (DoubleMap.iter_prefix s.kickback_reservations id)
    ensure (not (length present_members == 0))
        (fail KickbackError.attendance_must_be_greater_than_zero)
    (amt_per_present, remainder_for_publisher) ←
        drain_into_accounts (event_account_id id) present_members publisher
    on_store (λ s. record s {
      kickback_events = Map.remove s.kickback_events id;
      kickback_reservations = DoubleMap.remove_prefix s.kickback_reservations id;
    })
    post (Notice.event_closed id k.reservation_req amt_per_present remainder_for_publisher)
