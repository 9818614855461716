-- ===== src/Rank.antt =====
-- pallets/rank/src/lib.rs: votes on the order of candidates. The call `vote` checks and writes nothing.
use sunshine_node.Prelude.{ℕ, ◌+◌, Bool, true, false, List, [], ◌∷◌, map, length}
use sunshine_node.Word.{add64}
use sunshine_node.Storage.Map
use sunshine_node.Storage.Map.{Map}
use sunshine_node.Storage.DoubleMap
use sunshine_node.Storage.DoubleMap.{DoubleMap}
use sunshine_node.Storage.Fresh.{next_free}
use sunshine_node.Dispatch.{DispatchError, RankError}
use sunshine_node.Exec.{Exec, pure, gets, lift, ok_or, ensure, ◌>>=◌, ◌>>◌}
use sunshine_node.Util.Rank.{Ballot, VoteBoard, VoteState, new, new_ballot, is_controller, lock}
use sunshine_node.Runtime.{Config, Pallet, Runtime, on_store, post}

pub data RankEvent : Type 0 where
  vote_opened : ℕ → ℕ → RankEvent
  vote_locked : ℕ → RankEvent
  vote_closed : ℕ → ℕ → RankEvent

pub record RankStore : Type 0 where
  pub vote_id_counter : ℕ
  pub vote_states : Map VoteBoard
  pub total_signal : Map ℕ
  pub vote_logger : DoubleMap Ballot

abbrev pub State : Type 0 → Type 0
State L = Pallet (Runtime L) RankStore RankEvent

abbrev fail : RankError → DispatchError
fail = DispatchError.rank

abbrev is_open : VoteState → Bool
is_open VoteState.opened = true
is_open VoteState.locked = false

module _ {L : Type 0} where
  -- The loop has one round more than there are votes.
  unfoldable pub generate_vote_uid : Exec (State L) ℕ
  generate_vote_uid = do
    s ← gets (λ s. s.store)
    let vote_counter =
        next_free (length s.vote_states + 1) s.vote_states (add64 s.vote_id_counter 1)
    on_store (λ s. record s { vote_id_counter = vote_counter })
    pure vote_counter

  -- The loop over the voters, with the sum of their signal.
  unfoldable pub mint_each : ℕ → List (ℕ × ℕ) → ℕ → Exec (State L) ℕ
  mint_each id [] total = pure total
  mint_each id ((a, signal) ∷ voters) total = do
    on_store (λ s. record s {
      vote_logger = DoubleMap.insert s.vote_logger id a (new_ballot (id, a) signal);
    })
    mint_each id voters (add64 total signal)

  unfoldable pub mint_signal : List (ℕ × ℕ) → Exec (State L) ℕ
  unfolding generate_vote_uid mint_each
  mint_signal voters = do
    id ← generate_vote_uid
    total ← mint_each id voters 0
    on_store (λ s. record s { total_signal = Map.insert s.total_signal id total })
    pure id

-- `from_set` is the constructor of `OrderedSet` for pairs of an account and its signal.
module _ (T : Config) (from_set : List (ℕ × ℕ) → List (ℕ × ℕ)) where
  open T use {Origin, ensure_signed}

  unfoldable pub open_vote : Origin → ℕ → List ℕ → List (ℕ × ℕ) → Exec (State T.Ledger) (Unit {0})
  unfolding mint_signal
  open_vote origin topic candidates voters = do
    vote_creator ← lift (ensure_signed origin)
    id ← mint_signal (from_set voters)
    let zero_candidates = map (λ c. (c, 0)) candidates
    let vote_info = new id topic vote_creator (from_set zero_candidates)
    on_store (λ s. record s { vote_states = Map.insert s.vote_states id vote_info })
    post (RankEvent.vote_opened vote_creator id)

module _ (T : Config) where
  open T use {Origin, ensure_signed}

  unfoldable pub close : Origin → ℕ → Exec (State T.Ledger) (Unit {0})
  close origin id = do
    caller ← lift (ensure_signed origin)
    s ← gets (λ s. s.store)
    vote_state ← ok_or (Map.get s.vote_states id) (fail RankError.vote_dne)
    ensure (is_controller vote_state caller) (fail RankError.not_authorized_to_close)
    on_store (λ s. record s {
      vote_states = Map.remove s.vote_states id;
      total_signal = Map.remove s.total_signal id;
      vote_logger = DoubleMap.remove_prefix s.vote_logger id;
    })
    post (RankEvent.vote_closed caller id)

  unfoldable pub lock_vote : Origin → ℕ → Exec (State T.Ledger) (Unit {0})
  lock_vote origin id = do
    caller ← lift (ensure_signed origin)
    s ← gets (λ s. s.store)
    vote_state ← ok_or (Map.get s.vote_states id) (fail RankError.vote_dne)
    ensure (is_open vote_state.state) (fail RankError.must_be_open_to_lock)
    ensure (is_controller vote_state caller) (fail RankError.not_authorized_to_lock)
    on_store (λ s. record s { vote_states = Map.insert s.vote_states id (lock vote_state) })
    post (RankEvent.vote_locked id)

  unfoldable pub vote : Origin → ℕ → List (ℕ × ℕ) → Exec (State T.Ledger) (Unit {0})
  vote origin vote_id votes = do
    voter ← lift (ensure_signed origin)
    s ← gets (λ s. s.store)
    vote_state ← ok_or (Map.get s.vote_states vote_id) (fail RankError.vote_dne)
    ensure (is_open vote_state.state) (fail RankError.locked_votes_do_not_accept_votes)
    _ ← ok_or (DoubleMap.get s.vote_logger vote_id voter) (fail RankError.not_authorized_to_vote)
    pure tt
