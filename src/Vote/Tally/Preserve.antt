-- ===== src/Vote/Tally/Preserve.antt =====
-- Voting keeps the invariant of the vote pallet.
use sunshine_node.Prelude.{
  ℕ, ◌<◌, ◌≡◌, ◌≢◌, refl, sym, ◌∙◌, ap, subst, inl, inr, Option, some, arith, ◌==◌, Bool,
  Bool-cases, ==_iff, if◌then◌else◌,
}
use sunshine_node.Word.{u64_mod}
use sunshine_node.Storage.Map
use sunshine_node.Storage.DoubleMap
use sunshine_node.Storage.DoubleMap.{DoubleMap}
use sunshine_node.Dispatch.{Result, ok, err}
use sunshine_node.Util.Vote.{
  Vote, VoteState, VoterView, in_favor, against, same_view, set_new_view, apply,
}
use sunshine_node.Util.Vote.Outcome.{Counted, Holds, apply-Counted}
use sunshine_node.Runtime.{Runtime, VoteStore}
use sunshine_node.Vote.Ballot.{vote_on_proposal}
use sunshine_node.Vote.Tally.Sums.{
  cast, any, weight, tally-insert, tally-insert_ne, weight-le-tally, tally-add-le, tally-le,
}
use sunshine_node.Vote.Tally.Invariant.{
  IsTallied, IsCounted, Ballot, vote_on_proposal_refused, vote_on_proposal-Ballot,
}

module _ (logger : DoubleMap Vote) (id who : ℕ) (st : VoteState) (old : Vote)
    (t : IsTallied logger id st) (logged : DoubleMap.get logger id who ≡ some old) where
  -- The state holds what a logged voter has cast, and has room for it elsewhere.
  IsTallied-Holds : Holds st old.magnitude old.direction
  IsTallied-Holds = record {
    has_in_favor = rw t.favor_sum (weight-le-tally id who (same_view in_favor) logger old logged);
    has_against = rw t.against_sum (weight-le-tally id who (same_view against) logger old logged);
    room_in_favor = omega (
      arith,
      t.favor_sum,
      t.possible_sum,
      t.bounded,
      tally-add-le id who (same_view in_favor) logger old logged,
    );
    room_against = omega (
      arith,
      t.against_sum,
      t.possible_sum,
      t.bounded,
      tally-add-le id who (same_view against) logger old logged,
    );
    room_turnout = omega (
      arith,
      t.turnout_sum,
      t.possible_sum,
      t.bounded,
      tally-add-le id who cast logger old logged,
    );
  }

  IsTallied-in_favor-lt : st.in_favor < u64_mod
  IsTallied-in_favor-lt =
      omega
        (arith, t.favor_sum, t.possible_sum, t.bounded, tally-le id who (same_view in_favor) logger)

  IsTallied-against-lt : st.against < u64_mod
  IsTallied-against-lt =
      omega (
        arith,
        t.against_sum,
        t.possible_sum,
        t.bounded,
        tally-le id who (same_view against) logger,
      )

  module _ (new : Vote) (st' : VoteState) (same : new.magnitude ≡ old.magnitude)
      (applied : apply st old.magnitude old.direction new.direction ≡ some st') where
    weight_new :
        (p : VoterView → Bool) → weight p new ≡ (if p new.direction then old.magnitude else 0)
    weight_new p = ap (λ m. if p new.direction then m else 0) same

    moved : Counted st st' old.magnitude old.direction new.direction
    moved =
        apply-Counted st old.magnitude old.direction new.direction IsTallied-Holds
          IsTallied-in_favor-lt IsTallied-against-lt applied

    -- One vote: the new state holds the sums over the new log.
    ballot-IsTallied : IsTallied (DoubleMap.insert logger id who new) id st'
    ballot-IsTallied = record {
      favor_sum = omega (
        arith,
        t.favor_sum,
        moved.in_favor_moved,
        weight_new (same_view in_favor),
        tally-insert (same_view in_favor) id who new logger old logged,
      );
      against_sum = omega (
        arith,
        t.against_sum,
        moved.against_moved,
        weight_new (same_view against),
        tally-insert (same_view against) id who new logger old logged,
      );
      turnout_sum = omega (
        arith,
        t.turnout_sum,
        moved.turnout_moved,
        weight_new cast,
        tally-insert cast id who new logger old logged,
      );
      possible_sum = omega (
        arith,
        t.possible_sum,
        moved.terms.all_possible_turnout,
        weight_new any,
        tally-insert any id who new logger old logged,
      );
      bounded = rw moved.terms.all_possible_turnout t.bounded;
    }

-- What `set_new_view` returns has the new direction and the old magnitude.
set_new_view-eq :
    (old new : Vote) (direction : VoterView) (justification : Option ℕ)
    → set_new_view old direction justification ≡ some new
    → (new.direction ≡ direction) × (new.magnitude ≡ old.magnitude)
unfolding set_new_view
set_new_view-eq old new direction justification h = ground arith

-- The state of another vote does not notice a vote.
other-IsTallied :
    (logger : DoubleMap Vote) (id who other : ℕ) (new : Vote) (st : VoteState)
    → id ≢ other
    → IsTallied logger other st
    → IsTallied (DoubleMap.insert logger id who new) other st
other-IsTallied logger id who other new st ne t = record {
  favor_sum = t.favor_sum ∙ sym (tally-insert_ne (same_view in_favor) id who new logger other ne);
  against_sum =
      t.against_sum ∙ sym (tally-insert_ne (same_view against) id who new logger other ne);
  turnout_sum = t.turnout_sum ∙ sym (tally-insert_ne cast id who new logger other ne);
  possible_sum = t.possible_sum ∙ sym (tally-insert_ne any id who new logger other ne);
  bounded = t.bounded;
}

module _ {now : ℕ} {v v' : VoteStore} {id who : ℕ} {direction : VoterView}
    {justification : Option ℕ} (b : Ballot now v id who direction justification v')
    (c : IsCounted v) where
  pub ballot_self : IsTallied (DoubleMap.insert v.vote_logger id who b.new) id b.state'
  ballot_self =
      let (to, same) = set_new_view-eq b.old b.new direction justification b.changed in
      ballot-IsTallied v.vote_logger id who b.state b.old (c.tallied id b.state b.found) b.logged
        b.new b.state' same (rw to b.applied)

  pub ballot_Counted : Counted b.state b.state' b.old.magnitude b.old.direction direction
  ballot_Counted =
      let t = c.tallied id b.state b.found in
      apply-Counted b.state b.old.magnitude b.old.direction direction
        (IsTallied-Holds v.vote_logger id who b.state b.old t b.logged)
        (IsTallied-in_favor-lt v.vote_logger id who b.state b.old t b.logged)
        (IsTallied-against-lt v.vote_logger id who b.state b.old t b.logged) b.applied

  ballot-IsCounted : IsCounted v'
  ballot-IsCounted = rw b.after (record {
    tallied = λ j st h. elim (Bool-cases (id == j)) [
      | inl self ↦
          subst (λ k. IsTallied (DoubleMap.insert v.vote_logger id who b.new) k st)
            ((==_iff id j).0 self)
            (subst (λ x. IsTallied (DoubleMap.insert v.vote_logger id who b.new) id x)
              (ground (arith, Map.get-insert v.vote_states id j b.state')) ballot_self)
      | inr other ↦
          other-IsTallied v.vote_logger id who j b.new st (λ e. ground arith)
            (c.tallied j st (ground (arith, Map.get-insert v.vote_states id j b.state')))
    ];
    unused = λ j above.
        ground (arith, Map.get-insert v.vote_states id j b.state', c.unused j above, b.found);
    unminted = λ j w above. ground (
      arith,
      DoubleMap.get-insert v.vote_logger id who j w b.new,
      c.unminted j w above,
      b.logged,
    );
  })

-- `vote_on_proposal` keeps the invariant on every branch: after any vote, accepted or refused, the
-- tallies of every vote's state are the sums over its logged votes.
pub vote_on_proposal-IsCounted :
    {L : Type 0} (id who : ℕ) (direction : VoterView) (justification : Option ℕ) (s : Runtime L)
    → IsCounted s.vote
    → IsCounted (vote_on_proposal id who direction justification s).1.vote
vote_on_proposal-IsCounted id who direction justification s c =
    by_result (vote_on_proposal id who direction justification s).0 refl
  where
    by_result :
        (r : Result (Unit {0}))
        → (vote_on_proposal id who direction justification s).0 ≡ r
        → IsCounted (vote_on_proposal id who direction justification s).1.vote
    by_result (ok _) e =
        ballot-IsCounted (vote_on_proposal-Ballot id who direction justification s e) c
    by_result (err x) e = rw (vote_on_proposal_refused id who direction justification s x e) c
