-- ===== src/Util/Vote/Outcome.antt =====
-- What `apply` does to the state of a vote: which changes of a vote it accepts, what it leaves
-- alone, and how the outcome follows from the new tallies.
use sunshine_node.Prelude.{
  ℕ, ◌+◌, ◌≤◌, ◌<◌, ◌≡◌, refl, subst, not, ◌||◌, some, some-injective, arith, is_none,
  if◌then◌else◌,
}
use sunshine_node.Word.{u64_mod, words}
use sunshine_node.Util.Vote.{
  VoterView, uninitialized, in_favor, against, abstain, VoteOutcome, VoteState, same_view,
  is_approved, is_rejected, unwrap_or_false, set_outcome, apply,
}

-- `apply` refuses exactly a change to `Uninitialized` and a change to the same view.
pub apply-is_none :
    (s : VoteState) (m : ℕ) (old new : VoterView)
    → is_none (apply s m old new) ≡ (same_view new uninitialized || same_view old new)
unfolding apply
apply-is_none s m uninitialized uninitialized = refl
apply-is_none s m uninitialized in_favor = refl
apply-is_none s m uninitialized against = refl
apply-is_none s m uninitialized abstain = refl
apply-is_none s m in_favor uninitialized = refl
apply-is_none s m in_favor in_favor = refl
apply-is_none s m in_favor against = refl
apply-is_none s m in_favor abstain = refl
apply-is_none s m against uninitialized = refl
apply-is_none s m against in_favor = refl
apply-is_none s m against against = refl
apply-is_none s m against abstain = refl
apply-is_none s m abstain uninitialized = refl
apply-is_none s m abstain in_favor = refl
apply-is_none s m abstain against = refl
apply-is_none s m abstain abstain = refl

-- The fields that neither a vote nor the outcome changes.
pub record SameTerms (s s' : VoteState) : Type 0 where
  pub topic : s'.topic ≡ s.topic
  pub all_possible_turnout : s'.all_possible_turnout ≡ s.all_possible_turnout
  pub threshold : s'.threshold ≡ s.threshold
  pub initialized : s'.initialized ≡ s.initialized
  pub ends : s'.ends ≡ s.ends

-- The outcome that the tallies of a state call for, from the outcome before.
abbrev pub outcome_after : VoteState → VoteOutcome → VoteOutcome
outcome_after s before =
    if is_approved s
    then VoteOutcome.approved
    else if unwrap_or_false (is_rejected s)
    then VoteOutcome.rejected
    else before

-- What a voter with view `view` of magnitude `m` adds to the tally of `of`.
abbrev pub part : VoterView → ℕ → VoterView → ℕ
part of m view = if same_view of view then m else 0

abbrev pub voted : ℕ → VoterView → ℕ
voted m view = if not (same_view view uninitialized) then m else 0

-- The change from `s` to `s'` when a vote of magnitude `m` goes from `old` to `new`.
pub record Counted (s s' : VoteState) (m : ℕ) (old new : VoterView) : Type 0 where
  pub terms : SameTerms s s'
  pub outcome : s'.outcome ≡ outcome_after s' s.outcome
  pub in_favor_moved : s'.in_favor + part in_favor m old ≡ s.in_favor + part in_favor m new
  pub against_moved : s'.against + part against m old ≡ s.against + part against m new
  pub turnout_moved : s'.turnout + voted m old ≡ s.turnout + voted m new

-- The tallies hold the old vote, and have room for the new one.
pub record Holds (s : VoteState) (m : ℕ) (old : VoterView) : Type 0 where
  pub has_in_favor : part in_favor m old ≤ s.in_favor
  pub has_against : part against m old ≤ s.against
  pub room_in_favor : s.in_favor + m < u64_mod + part in_favor m old
  pub room_against : s.against + m < u64_mod + part against m old
  pub room_turnout : s.turnout + m < u64_mod + voted m old

module _ (s : VoteState) where
  set_outcome-terms : SameTerms s (set_outcome s)
  unfolding set_outcome
  set_outcome-terms = ground arith

  set_outcome-in_favor : (set_outcome s).in_favor ≡ s.in_favor
  unfolding set_outcome
  set_outcome-in_favor = ground arith

  set_outcome-against : (set_outcome s).against ≡ s.against
  unfolding set_outcome
  set_outcome-against = ground arith

  set_outcome-turnout : (set_outcome s).turnout ≡ s.turnout
  unfolding set_outcome
  set_outcome-turnout = ground arith

  set_outcome-outcome : (set_outcome s).outcome ≡ outcome_after (set_outcome s) s.outcome
  unfolding set_outcome
  set_outcome-outcome = ground arith

-- The state `s` with new tallies, and the outcome that they call for.
module _ (s : VoteState) (i a n : ℕ) where
  abbrev retallied : VoteState
  retallied = record s { in_favor = i; against = a; turnout = n }

module _ (s : VoteState) (i a n m : ℕ) (old new : VoterView) {s' : VoteState} where
  Counted-by :
      some (set_outcome (retallied s i a n)) ≡ some s'
      → i + part in_favor m old ≡ s.in_favor + part in_favor m new
      → a + part against m old ≡ s.against + part against m new
      → n + voted m old ≡ s.turnout + voted m new
      → Counted s s' m old new
  Counted-by e f g h =
      let t = retallied s i a n in
      subst (λ x. Counted s x m old new) (some-injective _ _ e)
        (record {
          terms = record {
            topic = (set_outcome-terms t).topic;
            all_possible_turnout = (set_outcome-terms t).all_possible_turnout;
            threshold = (set_outcome-terms t).threshold;
            initialized = (set_outcome-terms t).initialized;
            ends = (set_outcome-terms t).ends;
          };
          outcome = set_outcome-outcome t;
          in_favor_moved = rw (set_outcome-in_favor t) f;
          against_moved = rw (set_outcome-against t) g;
          turnout_moved = rw (set_outcome-turnout t) h;
        })

-- Where the tallies are u64s, hold the old vote and have room for the new one, every change of
-- direction that `apply` accepts moves the magnitude from the tally of the old direction to that of
-- the new one, counts a first vote in the turnout, keeps the terms of the vote, and sets the outcome
-- by the threshold.
pub apply-Counted :
    (s : VoteState) (m : ℕ) (old new : VoterView) {s' : VoteState}
    → Holds s m old
    → s.in_favor < u64_mod
    → s.against < u64_mod
    → apply s m old new ≡ some s'
    → Counted s s' m old new
unfolding apply
apply-Counted s m uninitialized uninitialized h f a e = cc
apply-Counted s m uninitialized in_favor h f a e =
    Counted-by s _ _ _ m uninitialized in_favor e (omega words) (omega words) (omega words)
apply-Counted s m uninitialized against h f a e =
    Counted-by s _ _ _ m uninitialized against e (omega words) (omega words) (omega words)
apply-Counted s m uninitialized abstain h f a e =
    Counted-by s _ _ _ m uninitialized abstain e (omega words) (omega words) (omega words)
apply-Counted s m in_favor uninitialized h f a e = cc
apply-Counted s m in_favor in_favor h f a e = cc
apply-Counted s m in_favor against h f a e =
    Counted-by s _ _ _ m in_favor against e (omega words) (omega words) (omega words)
apply-Counted s m in_favor abstain h f a e =
    Counted-by s _ _ _ m in_favor abstain e (omega words) (omega words) (omega words)
apply-Counted s m against uninitialized h f a e = cc
apply-Counted s m against in_favor h f a e =
    Counted-by s _ _ _ m against in_favor e (omega words) (omega words) (omega words)
apply-Counted s m against against h f a e = cc
apply-Counted s m against abstain h f a e =
    Counted-by s _ _ _ m against abstain e (omega words) (omega words) (omega words)
apply-Counted s m abstain uninitialized h f a e = cc
apply-Counted s m abstain in_favor h f a e =
    Counted-by s _ _ _ m abstain in_favor e (omega words) (omega words) (omega words)
apply-Counted s m abstain against h f a e =
    Counted-by s _ _ _ m abstain against e (omega words) (omega words) (omega words)
apply-Counted s m abstain abstain h f a e = cc
