-- ===== src/Moloch/Ragequit.antt =====
-- A member leaves: it burns all its shares for its portion of the bank.
use sunshine_node.Prelude.{ℕ, ◌≤◌, ◌<◌, ◌≡◌, refl, inl, inr, true, some, none, arith, leb, le→leb}
use sunshine_node.Word.{u64_mod, sub64, sub64-eq}
use sunshine_node.Storage.Map
use sunshine_node.Storage.DoubleMap
use sunshine_node.Dispatch.{Result, ok, Result-cases}
use sunshine_node.Util.Organization.{Organization}
use sunshine_node.Util.Share.{ShareProfile, is_zero, subtract_shares}
use sunshine_node.Util.Bank.{BankState}
use sunshine_node.Runtime.{Config}
use sunshine_node.Org.{burn}
use sunshine_node.Moloch.Base.{State, bank_account_id}
use sunshine_node.Moloch.Membership.{burn_shares_for}
use sunshine_node.Moloch.Calls.{burn_shares}

burned-is_zero : (p : ShareProfile) → p.total < u64_mod → is_zero (subtract_shares p p.total) ≡ true
burned-is_zero p range = ground (arith, sub64-eq p.total p.total)

module _ (T : Config) (s : State T.Ledger) (origin : T.Origin) (bank_id who : ℕ) (bank : BankState)
    (org : Organization) (profile : ShareProfile) where
  abbrev portion_due : ℕ
  portion_due =
      T.mul_floor (T.from_rational_approximation profile.total org.shares)
        (T.total_balance s.base.ledger (bank_account_id T bank_id))

  abbrev withdrawal : Result (Unit {0}) × T.Ledger
  withdrawal = T.transfer (bank_account_id T bank_id) who portion_due s.base.ledger

  -- A member of the organization of a bank that burns its shares is no longer a member, and the
  -- organization has fewer shares by all that the member had, whether or not the transfer of its
  -- portion of the balance succeeds: the result of the call and the state of the currency are those
  -- of that one transfer. It asks that the member's shares are a u64 and at most those of the organization.
  pub ragequit :
      T.ensure_signed origin ≡ ok who
      → Map.get s.store.bank_stores bank_id ≡ some bank
      → Map.get s.base.org.orgs bank.org ≡ some org
      → DoubleMap.get s.base.org.members bank.org who ≡ some profile
      → profile.total < u64_mod
      → profile.total ≤ org.shares
      → ((burn_shares T origin bank_id s).0 ≡ withdrawal.0)
        × ((burn_shares T origin bank_id s).1.base.ledger ≡ withdrawal.1)
        × (DoubleMap.get (burn_shares T origin bank_id s).1.base.org.members bank.org who ≡ none)
        × (Map.get (burn_shares T origin bank_id s).1.base.org.orgs bank.org
            ≡ some (record org { shares = sub64 org.shares profile.total }))
  unfolding burn_shares burn_shares_for burn
  ragequit signed opened org_found member range covered =
      let enough : leb profile.total org.shares ≡ true = le→leb _ _ covered in
      let gone = burned-is_zero profile range in
      let left = DoubleMap.get-remove s.base.org.members bank.org who bank.org who in
      let written =
        Map.get-insert s.base.org.orgs bank.org bank.org
          (record org { shares = sub64 org.shares profile.total }) in
      elim (Result-cases withdrawal.0) [
        | inr (e, refused) ↦
            rw (signed, opened, org_found, member, enough, gone, refused)
              (refl, refl, ground (arith, left), ground (arith, written))
        | inl paid ↦
            rw (signed, opened, org_found, member, enough, gone, paid.1)
              (refl, refl, ground (arith, left), ground (arith, written))
      ]
