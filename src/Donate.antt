-- ===== src/Donate.antt =====
-- pallets/donate/src/lib.rs: a donation to an organization, divided among its members.
pub mod Equal
use sunshine_node.Prelude.{ℕ, ◌%◌, List, [], ◌∷◌, length, leb}
use sunshine_node.Word.{u32_mod, add128, sub128}
use sunshine_node.Storage.Map
use sunshine_node.Storage.DoubleMap
use sunshine_node.Dispatch.{DispatchError, DonateError}
use sunshine_node.Exec.{pure, gets, lift, ok_or, ensure, ◌>>=◌, ◌>>◌}
use sunshine_node.Util.Organization.{OrgRep}
use sunshine_node.Runtime.{Config, Call, deposit_event, on_ledger, Event, DonateEvent}
use sunshine_node.Org

module _ (T : Config) where
  open T use {
    Origin, ensure_signed, free_balance, transfer, ordered_set, from_rational_approximation,
    mul_floor,
  }

  unfoldable pub calculate_proportional_amount : ℕ → ℕ → ℕ → Call T ℕ
  calculate_proportional_amount amount account group = do
    s ← gets (λ s. s.org)
    org ←
        ok_or (Map.get s.orgs group)
          (DispatchError.donate DonateError.cannot_donate_to_org_that_dne)
    let issuance = org.shares
    acc_ownership ←
        ok_or (DoubleMap.get s.members group account)
          (DispatchError.donate DonateError.account_has_no_ownership_in_org)
    let ownership = from_rational_approximation acc_ownership.total issuance
    pure (mul_floor ownership amount)

  unfoldable pub calculate_uniform_amount : ℕ → ℕ → ℕ
  calculate_uniform_amount amount group_count =
      let group_size = group_count % u32_mod in
      mul_floor (from_rational_approximation 1 group_size) amount

  -- The loop over the members: each is paid what `due` computes; the sum of what was paid. It stops
  -- at the first error.
  unfoldable pub pay_each : ℕ → (ℕ → Call T ℕ) → List ℕ → ℕ → Call T ℕ
  pay_each sender due [] transferred_amt = pure transferred_amt
  pay_each sender due (acc ∷ rest) transferred_amt = do
    amt_due ← due acc
    on_ledger (transfer sender acc amt_due)
    pay_each sender due rest (add128 transferred_amt amt_due)

  unfoldable pub distribute : ℕ → OrgRep → ℕ → Call T ℕ
  unfolding pay_each calculate_proportional_amount calculate_uniform_amount
  distribute sender (OrgRep.weighted org_id) amt = do
    s ← gets (λ s. s.org)
    group ←
        ok_or (Org.get_group ordered_set s org_id)
          (DispatchError.donate DonateError.cannot_donate_to_org_that_dne)
    transferred_amt ← pay_each sender (λ acc. calculate_proportional_amount amt acc org_id) group 0
    pure (sub128 amt transferred_amt)
  distribute sender (OrgRep.equal org_id) amt = do
    s ← gets (λ s. s.org)
    group ←
        ok_or (Org.get_group ordered_set s org_id)
          (DispatchError.donate DonateError.cannot_donate_to_org_that_dne)
    let equal_payment = calculate_uniform_amount amt (length group)
    transferred_amt ← pay_each sender (λ acc. pure equal_payment) group 0
    pure (sub128 amt transferred_amt)

  -- Returns what went to the members and the remainder.
  unfoldable pub donate : ℕ → OrgRep → ℕ → ℕ → Call T (ℕ × ℕ)
  donate sender recipient remainder_recipient amt = do
    free ← gets (λ s. free_balance s.ledger sender)
    ensure (leb amt free)
        (DispatchError.donate DonateError.not_enough_funds_in_free_to_make_transfer)
    remainder ← distribute sender recipient amt
    on_ledger (transfer sender remainder_recipient remainder)
    pure (sub128 amt remainder, remainder)

  unfoldable pub make_prop_donation : Origin → ℕ → ℕ → ℕ → Call T (Unit {0})
  make_prop_donation origin org remainder_recipient amt = do
    sender ← lift (ensure_signed origin)
    (amt_transferred_to_org, remainder_transferred_to_acc) ←
        donate sender (OrgRep.weighted org) remainder_recipient amt
    deposit_event (
        Event.donate (
          DonateEvent.prop_donation_executed sender amt_transferred_to_org org
            remainder_transferred_to_acc remainder_recipient))

  unfoldable pub make_equal_donation : Origin → ℕ → ℕ → ℕ → Call T (Unit {0})
  make_equal_donation origin org remainder_recipient amt = do
    sender ← lift (ensure_signed origin)
    (amt_transferred_to_org, remainder_transferred_to_acc) ←
        donate sender (OrgRep.equal org) remainder_recipient amt
    deposit_event (
        Event.donate (
          DonateEvent.equal_donation_executed sender amt_transferred_to_org org
            remainder_transferred_to_acc remainder_recipient))
