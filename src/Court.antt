-- ===== src/Court.antt =====
-- pallets/court/src/lib.rs: courts, which are sequences of thresholds for votes.
use sunshine_node.Prelude.{ℕ, ◌+◌, Option, List, [], ◌∷◌, length, leb}
use sunshine_node.Word.{add32, add64}
use sunshine_node.Storage.Map
use sunshine_node.Storage.Map.{Map}
use sunshine_node.Storage.Fresh.{next_free}
use sunshine_node.Dispatch.{DispatchError, CourtError}
use sunshine_node.Exec.{Exec, pure, gets, lift, ensure, ◌>>=◌, ◌>>◌}
use sunshine_node.Util.Court.{Threshold, Court, new}
use sunshine_node.Runtime.{Config, Pallet, Runtime, on_store, post}

-- The event that nothing deposits is left out.
pub data CourtEvent : Type 0 where
  new_court_seq : ℕ → ℕ → CourtEvent

pub record CourtStore : Type 0 where
  pub court_id_counter : ℕ
  pub count : ℕ
  pub courts : Map Court

abbrev pub State : Type 0 → Type 0
State L = Pallet (Runtime L) CourtStore CourtEvent

-- The least bond, and the constructor of `OrderedSet` for thresholds.
pub record CourtTrait : Type 0 where
  pub min_bond : ℕ
  pub from_set : List Threshold → List Threshold

-- Each threshold is ranked by its place in the sequence; the runtime does not set the type of a rank,
-- which is taken to be a u32.
unfoldable pub ranked_from : ℕ → List ℕ → List Threshold
ranked_from counter [] = []
ranked_from counter (id ∷ from) =
    record { rank = counter; id = id } ∷ ranked_from (add32 counter 1) from

unfoldable pub vote_thresholds : List ℕ → List Threshold
unfolding ranked_from
vote_thresholds from = ranked_from 0 from

-- The loop has one round more than there are courts.
unfoldable pub generate_court_uid : {L : Type 0} → Exec (State L) ℕ
generate_court_uid = do
  s ← gets (λ s. s.store)
  let count = next_free (length s.courts + 1) s.courts (add64 s.court_id_counter 1)
  on_store (λ s. record s { court_id_counter = count })
  pure count

unfoldable pub create_court_seq :
    (T : Config) → CourtTrait → T.Origin → Option ℕ → ℕ → List ℕ → Exec (State T.Ledger) (Unit {0})
unfolding generate_court_uid vote_thresholds
create_court_seq T K origin controller bond vote_seq = do
  ensure (leb K.min_bond bond) (DispatchError.court CourtError.bond_must_exceed_min)
  _ ← lift (T.ensure_signed origin)
  id ← generate_court_uid
  let court = new K.from_set id controller bond (vote_thresholds vote_seq)
  on_store (λ s. record s { courts = Map.insert s.courts id court })
  post (CourtEvent.new_court_seq id bond)
