-- ===== src/Vote/Tally/Minting.antt =====
-- What the minting of signal does to the sums over the log.
use sunshine_node.Prelude.{
  ℕ, ◌+◌, ◌≡◌, ◌≢◌, refl, ◌∙◌, Bool, some, none, List, [], ◌∷◌, arith, if◌then◌else◌,
}
use sunshine_node.Storage.Map
use sunshine_node.Storage.Map.{Distinct}
use sunshine_node.Storage.DoubleMap
use sunshine_node.Storage.DoubleMap.{DoubleMap}
use sunshine_node.Util.Share.{sum}
use sunshine_node.Util.Vote.{Vote, VoterView, uninitialized}
use sunshine_node.Vote.Open.{new_vote, mint_each}
use sunshine_node.Vote.Tally.Sums.{tally, tally-insert_new, tally-insert_ne}

-- None of the accounts has a vote of `id` in the log.
abbrev pub Clear : ℕ → List (ℕ × ℕ) → DoubleMap Vote → Type 0
Clear id group logger =
    (who shares : ℕ) → Map.get group who ≡ some shares → DoubleMap.get logger id who ≡ none

Clear-insert :
    (id who : ℕ) (v : Vote) (shares : ℕ) (group : List (ℕ × ℕ)) (logger : DoubleMap Vote)
    → Map.get group who ≡ none
    → Clear id ((who, shares) ∷ group) logger
    → Clear id group (DoubleMap.insert logger id who v)
unfolding Map.get
Clear-insert id who v shares group logger absent clear w x h =
    ground (arith, DoubleMap.get-insert logger id who id w v, clear w x)

abbrev minted : (VoterView → Bool) → List (ℕ × ℕ) → ℕ
minted p group = if p uninitialized then sum group else 0

-- A tally grows by all the signal, if votes that are not cast count for it, and else not at all.
pub tally-mint_each :
    (p : VoterView → Bool) (id : ℕ) (group : List (ℕ × ℕ)) (logger : DoubleMap Vote)
    → Distinct group
    → Clear id group logger
    → tally p id (mint_each id group logger) ≡ tally p id logger + minted p group
unfolding mint_each
tally-mint_each p id [] logger d clear = ground arith
tally-mint_each p id ((who, shares) ∷ group) logger d clear = ground (
  arith,
  tally-mint_each p id group (DoubleMap.insert logger id who (new_vote shares)) d.1
      (Clear-insert id who (new_vote shares) shares group logger d.0 clear),
  tally-insert_new p id who (new_vote shares) logger
      (clear who shares (unfold Map.get in ground arith)),
)

pub tally-mint_each_ne :
    (p : VoterView → Bool) (id other : ℕ) (group : List (ℕ × ℕ)) (logger : DoubleMap Vote)
    → id ≢ other
    → tally p other (mint_each id group logger) ≡ tally p other logger
unfolding mint_each
tally-mint_each_ne p id other [] logger ne = refl
tally-mint_each_ne p id other ((who, shares) ∷ group) logger ne =
    tally-mint_each_ne p id other group (DoubleMap.insert logger id who (new_vote shares)) ne
    ∙ tally-insert_ne p id who (new_vote shares) logger other ne

pub get-mint_each_ne :
    (id other who : ℕ) (group : List (ℕ × ℕ)) (logger : DoubleMap Vote)
    → id ≢ other
    → DoubleMap.get (mint_each id group logger) other who ≡ DoubleMap.get logger other who
unfolding mint_each
get-mint_each_ne id other who [] logger ne = refl
get-mint_each_ne id other who ((w, shares) ∷ group) logger ne =
    get-mint_each_ne id other who group (DoubleMap.insert logger id w (new_vote shares)) ne
    ∙ ground (arith, DoubleMap.get-insert logger id w other who (new_vote shares))

pub tally_of_none :
    (p : VoterView → Bool) (id : ℕ) (logger : DoubleMap Vote)
    → ((who : ℕ) → DoubleMap.get logger id who ≡ none)
    → tally p id logger ≡ 0
unfolding tally DoubleMap.get
tally_of_none p id [] h = refl
tally_of_none p id ((i, j, v) ∷ logger) h =
    ground (arith, h j, tally_of_none p id logger (λ w. ground (arith, h j, h w)))
