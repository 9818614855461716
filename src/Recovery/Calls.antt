-- ===== src/Recovery/Calls.antt =====
-- The dispatchable calls of the recovery pallet.
use sunshine_node.Prelude.{
  ℕ, Bool, true, false, not, Option, none, some, List, [], ◌∷◌, ltb, ◌==◌, if◌then◌else◌,
}
use sunshine_node.Storage.Map
use sunshine_node.Storage.DoubleMap
use sunshine_node.Storage.DoubleMap.{DoubleMap}
use sunshine_node.Dispatch.{RecoveryError}
use sunshine_node.Exec.{Exec, pure, gets, lift, ok_or, ensure, ◌>>=◌, ◌>>◌}
use sunshine_node.Util.Recovery.{
  Commit, Relation, RelationState, SssState, SecretState, reveal, is_reserved, set_reserved,
  set_history, inc_round, set_state,
}
use sunshine_node.Runtime.{Config, on_money, on_store, post}
use sunshine_node.Recovery.Base.{
  State, RecoveryEvent, RecoveryTrait, fail, is_unused, is_successful, is_pending, pop, popped,
  push, generate_secret_uid, put_secret, put_commits,
}

-- The loop over the holders: each is invited with an empty history.
unfoldable pub invite_each : ℕ → List ℕ → DoubleMap Relation → DoubleMap Relation
invite_each id [] m = m
invite_each id (a ∷ l) m = invite_each id l (
    DoubleMap.insert m id a
      (record { key = (id, a); history = []; state = RelationState.unreserved }))

-- The round after the present one, which undoes a success.
abbrev pub next_round : SecretState → SecretState
next_round secret =
    if is_successful secret.state
    then inc_round (set_state secret SssState.unused)
    else inc_round secret

module _ (T : Config) (K : RecoveryTrait) where
  open T use {Origin, ensure_signed, free_balance, transfer, reserve, ordered_set}
  open K use {secret_account_id, hash, from_sorted_set}

  unfoldable pub invite_group : Origin → ℕ → ℕ → List ℕ → Exec (State T.Ledger) (Unit {0})
  unfolding generate_secret_uid invite_each
  invite_group origin pool reserve_req accounts = do
    user ← lift (ensure_signed origin)
    free ← gets (λ s. free_balance s.base.ledger user)
    ensure (ltb pool free) (fail RecoveryError.user_cannot_afford_request)
    let potential_secret_holders = ordered_set accounts
    id ← generate_secret_uid
    on_money (transfer user (secret_account_id id) pool)
    on_store (λ s. record s { commits = invite_each id potential_secret_holders s.commits })
    let secret_st : SecretState = record {
      id = id;
      user = user;
      round = 0;
      reserve_req = reserve_req;
      state = SssState.unused;
    }
    put_secret id secret_st
    post (RecoveryEvent.secret_group_initialized user id)

  unfoldable pub revoke_invitation : Origin → ℕ → ℕ → Exec (State T.Ledger) (Unit {0})
  revoke_invitation origin secret_id account = do
    caller ← lift (ensure_signed origin)
    s ← gets (λ s. s.store)
    secret ← ok_or (Map.get s.secrets secret_id) (fail RecoveryError.secret_dne)
    ensure (secret.user == caller) (fail RecoveryError.not_authorized_for_secret)
    on_store (λ s. record s { commits = DoubleMap.remove s.commits secret_id account })
    post (RecoveryEvent.revoked_invitation secret_id account)

  unfoldable pub increment_round : Origin → ℕ → Exec (State T.Ledger) (Unit {0})
  increment_round origin secret_id = do
    caller ← lift (ensure_signed origin)
    s ← gets (λ s. s.store)
    secret ← ok_or (Map.get s.secrets secret_id) (fail RecoveryError.secret_dne)
    ensure (secret.user == caller) (fail RecoveryError.not_authorized_for_secret)
    ensure (not (is_pending secret.state))
        (fail RecoveryError.cannot_increment_round_from_secret_state)
    let new_secret = next_round secret
    put_secret secret_id new_secret
    post (RecoveryEvent.new_round_started secret_id new_secret.round)

  unfoldable pub request_recovery : Origin → ℕ → Exec (State T.Ledger) (Unit {0})
  request_recovery origin secret_id = do
    caller ← lift (ensure_signed origin)
    s ← gets (λ s. s.store)
    secret ← ok_or (Map.get s.secrets secret_id) (fail RecoveryError.secret_dne)
    ensure (secret.user == caller) (fail RecoveryError.not_authorized_for_secret)
    ensure (is_unused secret.state) (fail RecoveryError.recovery_request_pending)
    put_secret secret_id (set_state secret SssState.used_without_success)
    post (RecoveryEvent.recovery_requested caller secret_id secret.round)

  unfoldable pub report_recovery : Origin → ℕ → Exec (State T.Ledger) (Unit {0})
  report_recovery origin secret_id = do
    caller ← lift (ensure_signed origin)
    s ← gets (λ s. s.store)
    secret ← ok_or (Map.get s.secrets secret_id) (fail RecoveryError.secret_dne)
    ensure (secret.user == caller) (fail RecoveryError.not_authorized_for_secret)
    ensure (is_pending secret.state) (fail RecoveryError.must_request_recovery_before)
    put_secret secret_id (set_state secret SssState.used_with_success)
    post (RecoveryEvent.recovery_reported caller secret_id secret.round)

  unfoldable pub report_failure_and_close : Origin → ℕ → Exec (State T.Ledger) (Unit {0})
  report_failure_and_close origin secret_id = do
    caller ← lift (ensure_signed origin)
    s ← gets (λ s. s.store)
    secret ← ok_or (Map.get s.secrets secret_id) (fail RecoveryError.secret_dne)
    ensure (secret.user == caller) (fail RecoveryError.not_authorized_for_secret)
    ensure (is_pending secret.state) (fail RecoveryError.must_request_recovery_before)
    on_store (λ s. record s {
      secrets = Map.remove s.secrets secret_id;
      commits = DoubleMap.remove_prefix s.commits secret_id;
    })
    post (RecoveryEvent.secret_group_closed caller secret_id secret.round)

  -- A keeper's first commit reserves the collateral.
  abbrev with_collateral : Bool → ℕ → ℕ → Relation → Exec (State T.Ledger) Relation
  with_collateral true participant reserve_req commit_st = pure commit_st
  with_collateral false participant reserve_req commit_st = do
    on_money (reserve participant reserve_req)
    pure (set_reserved commit_st)

  -- The last commit is of an earlier round; it is pushed back.
  abbrev before_round : Option (List Commit × Commit) → ℕ → Exec (State T.Ledger) (List Commit)
  before_round none round = pure []
  before_round (some (rest, last_commit)) round = do
    ensure (ltb last_commit.round_id round) (fail RecoveryError.commit_already_made_for_round)
    pure (push rest last_commit)

  unfoldable pub commit_hash : Origin → ℕ → ℕ → Exec (State T.Ledger) (Unit {0})
  unfolding push popped
  commit_hash origin secret_id h = do
    participant ← lift (ensure_signed origin)
    s ← gets (λ s. s.store)
    secret ← ok_or (Map.get s.secrets secret_id) (fail RecoveryError.secret_dne)
    ensure (is_unused secret.state) (fail RecoveryError.must_commit_hash_before_recovery_requested)
    found ←
        ok_or (DoubleMap.get s.commits secret_id participant)
          (fail RecoveryError.not_authorized_for_secret)
    commit_st ← with_collateral (is_reserved found) participant secret.reserve_req found
    history ← before_round (pop commit_st.history) secret.round
    let new_commit : Commit = record { round_id = secret.round; hash = h; preimage = none }
    let new_commit_st = set_history from_sorted_set commit_st (push history new_commit)
    put_commits secret_id participant new_commit_st
    post (RecoveryEvent.committed_secret_hash participant secret_id secret.round h)

  unfoldable pub reveal_preimage : Origin → ℕ → ℕ → Exec (State T.Ledger) (Unit {0})
  unfolding push popped
  reveal_preimage origin secret_id preimage = do
    participant ← lift (ensure_signed origin)
    s ← gets (λ s. s.store)
    secret ← ok_or (Map.get s.secrets secret_id) (fail RecoveryError.secret_dne)
    ensure (is_pending secret.state) (fail RecoveryError.only_reveal_preimage_if_recovery_requested)
    commit_st ←
        ok_or (DoubleMap.get s.commits secret_id participant)
          (fail RecoveryError.not_authorized_for_secret)
    (history, last_commit) ←
        ok_or (pop commit_st.history) (fail RecoveryError.must_hash_before_preimage)
    ensure (last_commit.round_id == secret.round)
        (fail RecoveryError.must_commit_hash_in_same_round)
    ensure (hash preimage == last_commit.hash) (fail RecoveryError.preimage_hash_dne_hash)
    new_last_commit ←
        ok_or (reveal last_commit preimage) (fail RecoveryError.preimage_already_committed)
    put_commits secret_id participant
        (set_history from_sorted_set commit_st (push history new_last_commit))
    post (RecoveryEvent.revealed_preimage participant secret_id secret.round preimage)
