-- ===== src/Recovery/Base.antt =====
-- The storage and the events of the recovery pallet.
use sunshine_node.Prelude.{ℕ, ◌+◌, Bool, true, false, Option, none, some, List, [], ◌∷◌, length}
use sunshine_node.Word.{add64}
use sunshine_node.Storage.Map
use sunshine_node.Storage.Map.{Map}
use sunshine_node.Storage.DoubleMap
use sunshine_node.Storage.DoubleMap.{DoubleMap}
use sunshine_node.Storage.Fresh.{next_free}
use sunshine_node.Dispatch.{DispatchError, RecoveryError}
use sunshine_node.Exec.{Exec, pure, gets, ◌>>=◌, ◌>>◌}
use sunshine_node.Util.Recovery.{Commit, Relation, SssState, SecretState}
use sunshine_node.Runtime.{Pallet, Money, on_store}

pub data RecoveryEvent : Type 0 where
  secret_group_initialized : ℕ → ℕ → RecoveryEvent
  revoked_invitation : ℕ → ℕ → RecoveryEvent
  new_round_started : ℕ → ℕ → RecoveryEvent
  recovery_requested : ℕ → ℕ → ℕ → RecoveryEvent
  recovery_reported : ℕ → ℕ → ℕ → RecoveryEvent
  secret_group_closed : ℕ → ℕ → ℕ → RecoveryEvent
  committed_secret_hash : ℕ → ℕ → ℕ → ℕ → RecoveryEvent
  revealed_preimage : ℕ → ℕ → ℕ → ℕ → RecoveryEvent

pub record RecoveryStore : Type 0 where
  pub secret_id_counter : ℕ
  pub secrets : Map SecretState
  pub commits : DoubleMap Relation

abbrev pub State : Type 0 → Type 0
State L = Pallet (Money L) RecoveryStore RecoveryEvent

-- The account of a secret, the hash function of the chain and the constructor of `OrderedSet`. A
-- share of a secret, a vector of bytes in the source, is a number here.
pub record RecoveryTrait : Type 0 where
  pub secret_account_id : ℕ → ℕ
  pub hash : ℕ → ℕ
  pub from_sorted_set : List Commit → List Commit

abbrev pub fail : RecoveryError → DispatchError
fail = DispatchError.recovery

abbrev pub is_unused : SssState → Bool
is_unused SssState.unused = true
is_unused _ = false

abbrev pub is_successful : SssState → Bool
is_successful SssState.used_with_success = true
is_successful _ = false

abbrev pub is_pending : SssState → Bool
is_pending SssState.used_without_success = true
is_pending _ = false

-- `Vec::pop` and `Vec::push`.
unfoldable pub popped : Commit → List Commit → List Commit × Commit
popped c [] = ([], c)
popped c (d ∷ l) = let (rest, last) = popped d l in (c ∷ rest, last)

abbrev pub pop : List Commit → Option (List Commit × Commit)
pop [] = none
pop (c ∷ l) = some (popped c l)

unfoldable pub push : List Commit → Commit → List Commit
push [] x = x ∷ []
push (c ∷ l) x = c ∷ push l x

module _ {L : Type 0} where
  -- The loop has one round more than there are secrets.
  unfoldable pub generate_secret_uid : Exec (State L) ℕ
  generate_secret_uid = do
    s ← gets (λ s. s.store)
    let secret_counter = next_free (length s.secrets + 1) s.secrets (add64 s.secret_id_counter 1)
    on_store (λ s. record s { secret_id_counter = secret_counter })
    pure secret_counter

  abbrev pub put_secret : ℕ → SecretState → Exec (State L) (Unit {0})
  put_secret id secret = on_store (λ s. record s { secrets = Map.insert s.secrets id secret })

  abbrev pub put_commits : ℕ → ℕ → Relation → Exec (State L) (Unit {0})
  put_commits id a r = on_store (λ s. record s { commits = DoubleMap.insert s.commits id a r })
