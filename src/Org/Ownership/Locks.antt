-- ===== src/Org/Ownership/Locks.antt =====
-- The locks of share profiles.
use sunshine_node.Prelude.{ℕ, ◌≡◌, ◌≢◌, refl, ap, ◌∙◌, some, true, false, arith}
use sunshine_node.Storage.DoubleMap
use sunshine_node.Storage.DoubleMap.{DoubleMap, insert-Unique}
use sunshine_node.Dispatch.{DispatchError, OrgError, is_err, ok, err}
use sunshine_node.Util.Share.{ShareProfile, ProfileState, lock, unlock}
use sunshine_node.Runtime.{Runtime, Config}
use sunshine_node.Org.Base.{
  lock_profile, unlock_profile, is_organization_supervisor, get_share_profile,
}
use sunshine_node.Org.Calls.{lock_shares, unlock_shares}

module _ {L : Type 0} (o who : ℕ) where
  abbrev put : Runtime L → ShareProfile → Runtime L
  put s p = record s { org = record s.org { members = DoubleMap.insert s.org.members o who p } }

  get-put : (s : Runtime L) (p : ShareProfile) → DoubleMap.get (put s p).org.members o who ≡ some p
  get-put s p = ground (arith, DoubleMap.get-insert s.org.members o who o who p)

  module _ (s : Runtime L) (p : ShareProfile)
      (found : DoubleMap.get s.org.members o who ≡ some p) where
    lock_unlocked : p.state ≡ ProfileState.unlocked → lock_profile o who s ≡ (ok tt, put s (lock p))
    unfolding lock_profile
    lock_unlocked e = rw (found, e)

    lock_locked :
        p.state ≡ ProfileState.locked
        → lock_profile o who s ≡ (err (DispatchError.org OrgError.cannot_lock_if_already_locked), s)
    unfolding lock_profile
    lock_locked e = rw (found, e)

    unlock_locked :
        p.state ≡ ProfileState.locked → unlock_profile o who s ≡ (ok tt, put s (unlock p))
    unfolding unlock_profile
    unlock_locked e = rw (found, e)

module _ {L : Type 0} (o who : ℕ) (s : Runtime L) (p : ShareProfile)
    (found : get_share_profile s.org o who ≡ some p) where
  at : DoubleMap.get s.org.members o who ≡ some p
  unfolding get_share_profile
  at = found

  abbrev locked_state : Runtime L
  locked_state = put o who s (lock p)

  -- Locking an unlocked profile and unlocking it again gives the profile back; in between, a second
  -- lock is refused and changes nothing.
  pub unlock-lock :
      p.state ≡ ProfileState.unlocked
      → (t : Runtime L) × (u : Runtime L) × (lock_profile o who s ≡ (ok tt, t))
        × (lock_profile o who t
            ≡ (err (DispatchError.org OrgError.cannot_lock_if_already_locked), t))
        × (unlock_profile o who t ≡ (ok tt, u))
        × (get_share_profile u.org o who ≡ some p)
  unfolding get_share_profile
  unlock-lock was = (
    locked_state,
    put o who locked_state (unlock (lock p)),
    lock_unlocked o who s p at was,
    lock_locked o who locked_state (lock p) (get-put o who s (lock p)) refl,
    unlock_locked o who locked_state (lock p) (get-put o who s (lock p)) refl,
    get-put o who locked_state (unlock (lock p)) ∙ ap (λ (x : ShareProfile). some x) (ground arith),
  )

-- Who signs and is neither the supervisor nor the account itself can neither lock nor unlock the
-- account's shares: both calls are errors and leave the state as it was.
pub lock_shares_unauthorized :
    (T : Config) (origin : T.Origin) (o who : ℕ) (s : Runtime T.Ledger) (locker : ℕ)
    → T.ensure_signed origin ≡ ok locker
    → is_organization_supervisor s.org o locker ≡ false
    → locker ≢ who
    → ((lock_shares T origin o who s).1 ≡ s)
      × (is_err (lock_shares T origin o who s).0 ≡ true)
      × ((unlock_shares T origin o who s).1 ≡ s)
      × (is_err (unlock_shares T origin o who s).0 ≡ true)
unfolding lock_shares unlock_shares
lock_shares_unauthorized T origin o who s locker signed no_right other = ground arith
