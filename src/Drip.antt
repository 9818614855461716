-- ===== src/Drip.antt =====
-- pallets/drip/src/lib.rs: payments that are made in every period of blocks.
pub mod Rates
pub mod Reach
use sunshine_node.Prelude.{
  ℕ, ◌+◌, ◌%◌, Bool, not, is_none, Option, none, some, List, [], ◌∷◌, length, ltb, ◌==◌,
  if◌then◌else◌,
}
use Prim.Native.Nat.{◌*◌, ◌/◌}
use sunshine_node.Word.{u32_mod, add32, sub32, add64}
use sunshine_node.Storage.Map
use sunshine_node.Storage.Map.{Map}
use sunshine_node.Storage.Fresh.{next_free}
use sunshine_node.Dispatch.{DispatchError, DripError, Result, ok, err}
use sunshine_node.Exec.{Exec, pure, gets, lift, ok_or, attempt, ensure, ◌>>=◌, ◌>>◌}
use sunshine_node.Util.Drip.{Drip, DripRate}
use sunshine_node.Runtime.{Config, Pallet, Money, on_store, on_money, post}

pub data DripEvent : Type 0 where
  drip_started : ℕ → ℕ → ℕ → ℕ → ℕ → ℕ → DripEvent
  dripped : ℕ → ℕ → ℕ → DripEvent
  drip_cancelled : ℕ → ℕ → ℕ → ℕ → ℕ → ℕ → DripEvent

pub record DripStore : Type 0 where
  pub drip_id_counter : ℕ
  pub open_drip_counter : ℕ
  pub drips : Map Drip

abbrev pub State : Type 0 → Type 0
State L = Pallet (Money L) DripStore DripEvent

abbrev fail : DripError → DispatchError
fail = DispatchError.drip

-- `checked_div` is none for a period of zero.
unfoldable pub first_next_block_mod_period_is_zero : ℕ → ℕ → Option ℕ
first_next_block_mod_period_is_zero now period_length =
    let a = now / period_length * period_length % u32_mod in
    if period_length == 0
    then none
    else if ltb now a
    then some a
    else some (add32 now (sub32 period_length a))

unfoldable pub id_is_available : DripStore → ℕ → Bool
id_is_available s id = is_none (Map.get s.drips id)

module _ {L : Type 0} where
  -- The loop has one round more than there are drips.
  unfoldable pub generate_unique_id : Exec (State L) ℕ
  generate_unique_id = do
    s ← gets (λ s. s.store)
    let id_counter = next_free (length s.drips + 1) s.drips (add64 s.drip_id_counter 1)
    on_store (λ s. record s { drip_id_counter = id_counter })
    pure id_counter

module _ (T : Config) where
  open T use {Origin, ensure_signed, transfer}

  unfoldable pub start_drip : Origin → ℕ → DripRate → Exec (State T.Ledger) (Unit {0})
  unfolding generate_unique_id
  start_drip origin destination rate = do
    source ← lift (ensure_signed origin)
    now ← gets (λ s. s.base.block_number)
    first_payment_block ←
        ok_or (first_next_block_mod_period_is_zero now rate.period_length)
          (fail DripError.rate_period_length_must_be_greater_than_zero)
    ensure (not (source == destination)) (fail DripError.do_not_drip_to_self)
    ensure (ltb 0 rate.amount) (fail DripError.rate_amount_must_be_greater_than_zero)
    let drip : Drip = record { source = source; destination = destination; rate = rate }
    id ← generate_unique_id
    on_store (λ s. record s {
      drips = Map.insert s.drips id drip;
      open_drip_counter = add32 s.open_drip_counter 1;
    })
    post (
        DripEvent.drip_started id first_payment_block source destination rate.amount
          rate.period_length)

  unfoldable pub cancel_drip : Origin → ℕ → Exec (State T.Ledger) (Unit {0})
  cancel_drip origin id = do
    caller ← lift (ensure_signed origin)
    s ← gets (λ s. s.store)
    drip ← ok_or (Map.get s.drips id) (fail DripError.drip_dne)
    ensure (drip.source == caller) (fail DripError.not_authorized_to_cancel_drip)
    on_store (λ s. record s {
      drips = Map.remove s.drips id;
      open_drip_counter = sub32 s.open_drip_counter 1;
    })
    now ← gets (λ s. s.base.block_number)
    post (
        DripEvent.drip_cancelled id now drip.source drip.destination drip.rate.amount
          drip.rate.period_length)

  abbrev report_pay : Drip → Result (Unit {0}) → Exec (State T.Ledger) (Unit {0})
  report_pay drip (ok _) = post (DripEvent.dripped drip.source drip.destination drip.rate.amount)
  report_pay drip (err e) = pure tt

  unfoldable pub pay : Drip → Exec (State T.Ledger) (Unit {0})
  pay drip = do
    paid ← attempt (on_money (transfer drip.source drip.destination drip.rate.amount))
    report_pay drip paid

  -- The loop over the drips; `none` is the panic of a remainder by zero.
  unfoldable pub pay_due : ℕ → Map Drip → State T.Ledger → Option (State T.Ledger)
  unfolding pay
  pay_due current_block [] s = some s
  pay_due current_block ((_, drip) ∷ m) s =
      let paid = pay_due current_block m (pay drip s).1 in
      let skipped = pay_due current_block m s in
      if drip.rate.period_length == 0
      then none
      else if current_block % drip.rate.period_length == 0
      then paid
      else skipped

  unfoldable pub on_finalize : State T.Ledger → Option (State T.Ledger)
  unfolding pay_due
  on_finalize s = pay_due s.base.block_number s.store.drips s
