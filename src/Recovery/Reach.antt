-- ===== src/Recovery/Reach.antt =====
-- The calls of the recovery pallet as a step relation, and the histories of every reachable state.
use sunshine_node.Prelude.{ℕ, ◌≡◌, some, List, [], ◌∷◌, arith}
use sunshine_node.Storage.DoubleMap
use sunshine_node.Storage.DoubleMap.{DoubleMap}
use sunshine_node.Util.Recovery.{Relation}
use sunshine_node.Runtime.{Config, Money}
use sunshine_node.Recovery.Base.{State, RecoveryTrait}
use sunshine_node.Recovery.Calls.{
  invite_group, revoke_invitation, increment_round, request_recovery, report_recovery,
  report_failure_and_close, commit_hash, reveal_preimage,
}
use sunshine_node.Recovery.Histories.{IsHonest}
use sunshine_node.Recovery.Keeping.{
  OrderedCommitsLaws, IsKept, invite-IsKept, revoke-IsKept, rounds-IsKept, close-IsKept,
  commit-IsKept, reveal-IsKept,
}

-- What can happen to the pallet: its calls, in any order and by anybody, and between them whatever
-- other pallets do to the currency.
pub data Step (T : Config) (K : RecoveryTrait) (s : State T.Ledger) : State T.Ledger → Type 0 where
  invite :
      (origin : T.Origin) (amount req : ℕ) (accounts : List ℕ)
      → Step T K s (invite_group T K origin amount req accounts s).1
  revoke : (origin : T.Origin) (id a : ℕ) → Step T K s (revoke_invitation T K origin id a s).1
  increment : (origin : T.Origin) (id : ℕ) → Step T K s (increment_round T K origin id s).1
  request : (origin : T.Origin) (id : ℕ) → Step T K s (request_recovery T K origin id s).1
  report : (origin : T.Origin) (id : ℕ) → Step T K s (report_recovery T K origin id s).1
  close : (origin : T.Origin) (id : ℕ) → Step T K s (report_failure_and_close T K origin id s).1
  commit : (origin : T.Origin) (id h : ℕ) → Step T K s (commit_hash T K origin id h s).1
  reveal : (origin : T.Origin) (id p : ℕ) → Step T K s (reveal_preimage T K origin id p s).1
  elsewhere : (base : Money T.Ledger) → Step T K s (record s { base = base })

pub data Reachable (T : Config) (K : RecoveryTrait) : State T.Ledger → Type 0 where
  begin : (s : State T.Ledger) → s.store.commits ≡ [] → Reachable T K s
  next : {s t : State T.Ledger} → Reachable T K s → Step T K s t → Reachable T K t

nothing-IsKept : (hash : ℕ → ℕ) (m : DoubleMap Relation) → m ≡ [] → IsKept hash m
unfolding DoubleMap.get
nothing-IsKept hash [] e id a r h = ground arith
nothing-IsKept hash (x ∷ m) e id a r h = ground arith

module _ (T : Config) (K : RecoveryTrait) (laws : OrderedCommitsLaws K) where
  Step-IsKept :
      {s t : State T.Ledger}
      → Step T K s t
      → IsKept K.hash s.store.commits
      → IsKept K.hash t.store.commits
  Step-IsKept {s} (invite origin amount req accounts) is =
      invite-IsKept T K laws s is origin amount req accounts
  Step-IsKept {s} (revoke origin id a) is = revoke-IsKept T K laws s is origin id a
  Step-IsKept {s} (increment origin id) is = (rounds-IsKept T K laws s is origin id).0
  Step-IsKept {s} (request origin id) is = (rounds-IsKept T K laws s is origin id).1
  Step-IsKept {s} (report origin id) is = (rounds-IsKept T K laws s is origin id).2
  Step-IsKept {s} (close origin id) is = close-IsKept T K laws s is origin id
  Step-IsKept {s} (commit origin id h) is = commit-IsKept T K laws s is origin id h
  Step-IsKept {s} (reveal origin id p) is = reveal-IsKept T K laws s is origin id p
  Step-IsKept {s} (elsewhere base) is = is

  -- In every state that the calls of the pallet lead to, in any order and by anybody, the history of
  -- each keeper has at most one commit for a round, in the order of the rounds, and every share that
  -- it shows has the hash that was committed to. It asks that OrderedSet takes a vector in order as it
  -- is.
  pub Reachable-IsHonest :
      {s : State T.Ledger}
      → Reachable T K s
      → (id a : ℕ) (r : Relation) → DoubleMap.get s.store.commits id a ≡ some r
      → IsHonest K.hash r.history
  Reachable-IsHonest (begin s none_yet) = nothing-IsKept K.hash s.store.commits none_yet
  Reachable-IsHonest (next r st) = Step-IsKept st (Reachable-IsHonest r)
