-- ===== src/Vote/Tally/Updates.antt =====
-- The updates of a vote that keep its tallies.
use sunshine_node.Prelude.{
  ℕ, ◌≡◌, subst, inl, inr, some, false, arith, ◌==◌, Bool-cases, Option-cases, ==_iff,
}
use sunshine_node.Word.{add32}
use sunshine_node.Storage.Map
use sunshine_node.Util.Vote.{VoteState, set_ends, update_topic_without_clearing_state}
use sunshine_node.Runtime.{Runtime, VoteStore}
use sunshine_node.Vote.Ballot.{extended, update_vote_topic, extend_vote_length}
use sunshine_node.Vote.Tally.Invariant.{IsTallied, IsCounted}

-- A state is written over one that has the same tallies.
rewritten-IsCounted :
    (v : VoteStore) (id : ℕ) (st st' : VoteState)
    → IsCounted v
    → Map.get v.vote_states id ≡ some st
    → (IsTallied v.vote_logger id st → IsTallied v.vote_logger id st')
    → IsCounted (record v { vote_states = Map.insert v.vote_states id st' })
rewritten-IsCounted v id st st' c found same = record {
  tallied = λ j x h. elim (Bool-cases (id == j)) [
    | inl self ↦
        subst (λ k. IsTallied v.vote_logger k x) ((==_iff id j).0 self)
          (subst (λ y. IsTallied v.vote_logger id y)
            (ground (arith, Map.get-insert v.vote_states id j st')) (same (c.tallied id st found)))
    | inr other ↦ c.tallied j x (ground (arith, Map.get-insert v.vote_states id j st'))
  ];
  unused = λ j above.
      ground (arith, Map.get-insert v.vote_states id j st', c.unused j above, c.unused id);
  unminted = c.unminted;
}

module _ {L : Type 0} (id : ℕ) (s : Runtime L) (c : IsCounted s.vote) where
  -- Extending a vote keeps the invariant of the vote pallet, on every branch.
  pub extend_vote_length-IsCounted :
      (blocks_from_now : ℕ) → IsCounted (extend_vote_length id blocks_from_now s).1.vote
  unfolding extend_vote_length
  extend_vote_length-IsCounted blocks_from_now =
      elim (Option-cases (Map.get s.vote.vote_states id)) [
        | inl e ↦ rw e c
        | inr (st, e) ↦
            elim (Bool-cases (extended st.ends (add32 s.block_number blocks_from_now))) [
              | inl longer ↦
                  rw (e, longer)
                    (rewritten-IsCounted s.vote id st
                      (set_ends st (add32 s.block_number blocks_from_now)) c e
                      (λ t. record {
                        favor_sum = t.favor_sum;
                        against_sum = t.against_sum;
                        turnout_sum = t.turnout_sum;
                        possible_sum = t.possible_sum;
                        bounded = t.bounded;
                      }))
              | inr not_longer ↦ rw (e, not_longer) c
            ]
      ]

  -- A new topic keeps the invariant of the vote pallet on every branch, where the tallies are kept too.
  pub update_vote_topic-IsCounted :
      (topic : ℕ) → IsCounted (update_vote_topic id topic false s).1.vote
  unfolding update_vote_topic
  update_vote_topic-IsCounted topic = elim (Option-cases (Map.get s.vote.vote_states id)) [
    | inl e ↦ rw e c
    | inr (st, e) ↦ rw e (
        rewritten-IsCounted s.vote id st (update_topic_without_clearing_state st topic) c e (λ t.
          record {
            favor_sum = t.favor_sum;
            against_sum = t.against_sum;
            turnout_sum = t.turnout_sum;
            possible_sum = t.possible_sum;
            bounded = t.bounded;
          }))
  ]
