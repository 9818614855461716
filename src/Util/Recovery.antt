-- ===== src/Util/Recovery.antt =====
-- utils/src/sss.rs: secrets, and what the keepers of their shares have committed to.
use sunshine_node.Prelude.{ℕ, Bool, true, false, Option, none, some, List}
use sunshine_node.Word.{add64}

pub data RelationState : Type 0 where
  unreserved : RelationState
  reserved_collateral : RelationState

pub record Commit : Type 0 where
  pub round_id : ℕ
  pub hash : ℕ
  pub preimage : Option ℕ

abbrev pub revealed : Option ℕ → Commit → ℕ → Option Commit
revealed none c p = some (record c { preimage = some p })
revealed (some _) c p = none

abbrev pub reveal : Commit → ℕ → Option Commit
reveal c p = revealed c.preimage c p

-- The history of a keeper, the oldest commit first.
pub record Relation : Type 0 where
  pub key : ℕ × ℕ
  pub history : List Commit
  pub state : RelationState

abbrev reserves : RelationState → Bool
reserves RelationState.unreserved = false
reserves RelationState.reserved_collateral = true

abbrev pub is_reserved : Relation → Bool
is_reserved r = reserves r.state

abbrev pub set_reserved : Relation → Relation
set_reserved r = record r { state = RelationState.reserved_collateral }

-- `from_sorted_set` is that of `OrderedSet`.
abbrev pub set_history : (List Commit → List Commit) → Relation → List Commit → Relation
set_history from_sorted_set r vec = record r { history = from_sorted_set vec }

pub data SssState : Type 0 where
  unused : SssState
  used_with_success : SssState
  used_without_success : SssState

pub record SecretState : Type 0 where
  pub id : ℕ
  pub user : ℕ
  pub round : ℕ
  pub reserve_req : ℕ
  pub state : SssState

abbrev pub inc_round : SecretState → SecretState
inc_round s = record s { round = add64 s.round 1 }

abbrev pub set_state : SecretState → SssState → SecretState
set_state s state = record s { state = state }
