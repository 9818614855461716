-- ===== src/Org/Issuance.antt =====
-- `impl ShareIssuance` of the org pallet: shares are issued and burned, one account or a batch.
use sunshine_node.Prelude.{ℕ, Bool, true, false, not, Option, none, some, is_none, leb}
use sunshine_node.Word.{checked_add, checked_sub}
use sunshine_node.Storage.Map
use sunshine_node.Storage.DoubleMap
use sunshine_node.Dispatch.{DispatchError, OrgError, Result, ok, err}
use sunshine_node.Exec.{Exec, pure, gets, ok_or, attempt, ensure, when, for_each, ◌>>=◌, ◌>>◌}
use sunshine_node.Util.Organization
use sunshine_node.Util.Share
use sunshine_node.Util.Share.{
  SharePortion, ShareProfile, WeightedVector, new_shares, is_zero, verify_shape,
}
use sunshine_node.Runtime.{Runtime, Config, Call, deposit_event, Event, OrgEvent}
use sunshine_node.Org.Base.{on_org, put_org, put_member, shares_or_zero}

abbrev pub with_issued : Option ShareProfile → ℕ × ℕ → ℕ → ShareProfile
with_issued none id amount = new_shares id amount
with_issued (some existing_profile) id amount = Share.add_shares existing_profile amount

module _ {L : Type 0} where
  unfoldable pub issue : ℕ → ℕ → ℕ → Bool → Exec (Runtime L) (Unit {0})
  issue organization new_owner amount batch = do
    s ← gets (λ s. s.org)
    let existing = DoubleMap.get s.members organization new_owner
    let new_profile = with_issued existing (organization, new_owner) amount
    when (not batch) do
      org ← ok_or (Map.get s.orgs organization) (DispatchError.org OrgError.org_dne)
      put_org organization (Organization.add_shares org amount)
    put_member organization new_owner new_profile
    when (is_none existing)
        (deposit_event (Event.org (OrgEvent.added_org_member organization new_owner amount)))

  abbrev report_issue : ℕ → ℕ → ℕ → Result (Unit {0}) → Exec (Runtime L) (Unit {0})
  report_issue organization member shares (ok _) =
      deposit_event (Event.org (OrgEvent.shares_issued organization member shares))
  report_issue organization member shares (err e) = pure tt

  unfoldable pub issue_entry : ℕ → ℕ × ℕ → Exec (Runtime L) (Unit {0})
  issue_entry organization (member, shares) = do
    r ← attempt (issue organization member shares true)
    report_issue organization member shares r

  unfoldable pub batch_issue : ℕ → WeightedVector → Exec (Runtime L) ℕ
  batch_issue organization genesis = do
    ensure (verify_shape genesis)
        (DispatchError.org OrgError.genesis_total_must_equal_sum_to_use_batch_ops)
    s ← gets (λ s. s.org)
    let total_shares = shares_or_zero (Map.get s.orgs organization)
    new_issuance ←
        ok_or (checked_add total_shares genesis.total)
          (DispatchError.org OrgError.issuance_would_overflow_shares)
    for_each (issue_entry organization) genesis.vec
    pure new_issuance

  abbrev amount_to_burn : Option ℕ → ShareProfile → Exec (Runtime L) ℕ
  amount_to_burn none old_profile = pure old_profile.total
  amount_to_burn (some specific_amt) old_profile = do
    ensure (leb specific_amt old_profile.total)
        (DispatchError.org OrgError.not_enough_shares_to_satisfy_burn_request)
    pure specific_amt

  abbrev leave_or_keep : ℕ → ℕ → ℕ → ShareProfile → Bool → Exec (Runtime L) (Unit {0})
  leave_or_keep organization old_owner amt_to_burn new_profile true = do
    on_org (λ s. record s { members = DoubleMap.remove s.members organization old_owner })
    deposit_event (Event.org (OrgEvent.removed_org_member organization old_owner amt_to_burn))
  leave_or_keep organization old_owner amt_to_burn new_profile false =
      put_member organization old_owner new_profile

module _ (T : Config) where
  open T use {from_rational_approximation}

  unfoldable pub burn : ℕ → ℕ → Option ℕ → Bool → Call T SharePortion
  burn organization old_owner amount batch = do
    s ← gets (λ s. s.org)
    org ← ok_or (Map.get s.orgs organization) (DispatchError.org OrgError.org_dne)
    old_profile ←
        ok_or (DoubleMap.get s.members organization old_owner)
          (DispatchError.org OrgError.not_enough_shares_to_satisfy_burn_request)
    amt_to_burn ← amount_to_burn amount old_profile
    let portion = from_rational_approximation amt_to_burn org.shares
    ensure (leb amt_to_burn org.shares)
        (DispatchError.org OrgError.cannot_burn_more_than_total_shares)
    when (not batch) (put_org organization (Organization.subtract_shares org amt_to_burn))
    let new_profile = Share.subtract_shares old_profile amt_to_burn
    leave_or_keep organization old_owner amt_to_burn new_profile (is_zero new_profile)
    pure (record { total = amt_to_burn; portion = portion })

  abbrev report_burn : ℕ → ℕ → Result SharePortion → Call T (Unit {0})
  report_burn organization member (ok portion) =
      deposit_event (Event.org (OrgEvent.shares_burned organization member portion.total))
  report_burn organization member (err e) = pure tt

  unfoldable pub burn_entry : ℕ → ℕ × ℕ → Call T (Unit {0})
  burn_entry organization (member, shares) = do
    r ← attempt (burn organization member (some shares) true)
    report_burn organization member r

  unfoldable pub batch_burn : ℕ → WeightedVector → Call T (Unit {0})
  batch_burn organization genesis = do
    ensure (verify_shape genesis)
        (DispatchError.org OrgError.genesis_total_must_equal_sum_to_use_batch_ops)
    s ← gets (λ s. s.org)
    org ← ok_or (Map.get s.orgs organization) (DispatchError.org OrgError.org_dne)
    new_issuance ←
        ok_or (checked_sub org.shares genesis.total)
          (DispatchError.org OrgError.issuance_cannot_go_negative)
    for_each (burn_entry organization) genesis.vec
    put_org organization (Organization.set_shares org new_issuance)
