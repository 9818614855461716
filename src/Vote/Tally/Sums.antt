-- ===== src/Vote/Tally/Sums.antt =====
-- Sums over the logged votes, under the writes to the log.
use sunshine_node.Prelude.{
  ℕ, ◌+◌, ◌≤◌, ◌≡◌, ◌≢◌, Bool, true, not, some, none, [], ◌∷◌, arith, ◌==◌, if◌then◌else◌,
}
use sunshine_node.Storage.DoubleMap.{DoubleMap, get, insert}
use sunshine_node.Util.Vote.{Vote, VoterView, uninitialized, in_favor, against, abstain, same_view}

-- The votes that count for each tally of a state.
abbrev pub cast : VoterView → Bool
cast view = not (same_view view uninitialized)

abbrev pub any : VoterView → Bool
any view = true

-- A vote counts by its magnitude, if its direction passes the test.
abbrev pub weight : (VoterView → Bool) → Vote → ℕ
weight p v = if p v.direction then v.magnitude else 0

-- The sum over the log of the votes of `id` that pass the test.
unfoldable pub tally : (VoterView → Bool) → ℕ → DoubleMap Vote → ℕ
tally p id [] = 0
tally p id ((i, _, v) ∷ logger) = (if i == id then weight p v else 0) + tally p id logger

module _ (p : VoterView → Bool) (id who : ℕ) (new : Vote) where
  -- A vote that is replaced: its weight goes, the new one's comes.
  pub tally-insert :
      (logger : DoubleMap Vote) (old : Vote)
      → get logger id who ≡ some old
      → tally p id (insert logger id who new) + weight p old ≡ tally p id logger + weight p new
  unfolding tally get insert
  tally-insert [] old h = cc
  tally-insert ((i, j, v) ∷ logger) old h = ground (arith, tally-insert logger old)

  -- A vote that is added.
  pub tally-insert_new :
      (logger : DoubleMap Vote)
      → get logger id who ≡ none
      → tally p id (insert logger id who new) ≡ tally p id logger + weight p new
  unfolding tally get insert
  tally-insert_new [] h = ground arith
  tally-insert_new ((i, j, v) ∷ logger) h = ground (arith, tally-insert_new logger)

  -- The other votes keep their sums.
  pub tally-insert_ne :
      (logger : DoubleMap Vote) (other : ℕ)
      → id ≢ other
      → tally p other (insert logger id who new) ≡ tally p other logger
  unfolding tally insert
  tally-insert_ne [] other h = ground arith
  tally-insert_ne ((i, j, v) ∷ logger) other h = ground (arith, tally-insert_ne logger other h)

module _ (id who : ℕ) where
  -- A logged vote is part of the tally that it counts for.
  pub weight-le-tally :
      (p : VoterView → Bool) (logger : DoubleMap Vote) (old : Vote)
      → get logger id who ≡ some old
      → weight p old ≤ tally p id logger
  unfolding tally get
  weight-le-tally p [] old h = cc
  weight-le-tally p ((i, j, v) ∷ logger) old h = ground (arith, weight-le-tally p logger old)

  pub tally-le :
      (p : VoterView → Bool) (logger : DoubleMap Vote) → tally p id logger ≤ tally any id logger
  unfolding tally
  tally-le p [] = omega arith
  tally-le p ((i, j, v) ∷ logger) = ground (arith, tally-le p logger)

  -- With the logged vote beside it, a tally stays within the signal that was minted.
  pub tally-add-le :
      (p : VoterView → Bool) (logger : DoubleMap Vote) (old : Vote)
      → get logger id who ≡ some old
      → tally p id logger + old.magnitude ≤ tally any id logger + weight p old
  unfolding tally get
  tally-add-le p [] old h = cc
  tally-add-le p ((i, j, v) ∷ logger) old h =
      ground (arith, tally-add-le p logger old, tally-le p logger)

-- The votes in favor and against are among those that are cast.
pub tally-split :
    (id : ℕ) (logger : DoubleMap Vote)
    → tally (same_view in_favor) id logger
        + tally (same_view against) id logger
        + tally (same_view abstain) id logger
      ≡ tally cast id logger
unfolding tally
tally-split id [] = omega arith
tally-split id ((i, j, v) ∷ logger) = ground (arith, tally-split id logger)
