-- ===== src/Vote/Tally/Reach.antt =====
-- The operations of the vote pallet as a step relation, and the tallies of every reachable state.
use sunshine_node.Prelude.{ℕ, ◌≡◌, refl, sym, subst, false, Option, some, [], arith}
use sunshine_node.Storage.Map
use sunshine_node.Storage.DoubleMap
use sunshine_node.Util.Organization.{OrgRep}
use sunshine_node.Util.Vote.{VoterView, Threshold, ThresholdInput}
use sunshine_node.Runtime.{Runtime, VoteStore, Config}
use sunshine_node.Vote.Base.{register_threshold}
use sunshine_node.Vote.Open.{open_vote, open_percent_vote}
use sunshine_node.Vote.Ballot.{vote_on_proposal, update_vote_topic, extend_vote_length}
use sunshine_node.Vote.Tally.Electorate.{Electorate, IsElectorate, electorate}
use sunshine_node.Vote.Tally.Invariant.{IsCounted}
use sunshine_node.Vote.Tally.Opening.{HasRoom, open_vote-IsCounted, open_percent_vote-IsCounted}
use sunshine_node.Vote.Tally.Preserve.{vote_on_proposal-IsCounted}
use sunshine_node.Vote.Tally.Updates.{extend_vote_length-IsCounted, update_vote_topic-IsCounted}

-- Who may vote for an organization is sound: nobody twice, and a total that is the sum.
abbrev pub HasElectorate : (T : Config) → Runtime T.Ledger → OrgRep → Type 0
HasElectorate T s rep = (e : Electorate) → electorate T s.org rep ≡ some e → IsElectorate e

-- What can happen to the pallet: a vote is opened, where identifiers are left and the electorate is
-- sound, somebody votes, a vote gets more time, or a new topic that keeps the tallies, or a threshold is
-- registered; and whatever leaves its storage alone. `invoke_threshold` is an opening, and the
-- dispatchable calls are these operations with checks before and events after.
pub data Step (T : Config) (s : Runtime T.Ledger) : Runtime T.Ledger → Type 0 where
  open_signal :
      (topic : Option ℕ) (rep : OrgRep) (threshold : Threshold) (duration : Option ℕ)
      → HasRoom s.vote
      → HasElectorate T s rep
      → Step T s (open_vote T topic rep threshold duration s).1
  open_percent :
      (topic : Option ℕ) (rep : OrgRep) (threshold : Threshold) (duration : Option ℕ)
      → HasRoom s.vote
      → HasElectorate T s rep
      → Step T s (open_percent_vote T topic rep threshold duration s).1
  vote :
      (id who : ℕ) (direction : VoterView) (justification : Option ℕ)
      → Step T s (vote_on_proposal id who direction justification s).1
  extend : (id blocks : ℕ) → Step T s (extend_vote_length id blocks s).1
  new_topic : (id topic : ℕ) → Step T s (update_vote_topic id topic false s).1
  register : (t : ThresholdInput OrgRep) → Step T s (register_threshold t s).1
  elsewhere : (t : Runtime T.Ledger) → t.vote ≡ s.vote → Step T s t

pub data Reachable (T : Config) : Runtime T.Ledger → Type 0 where
  begin : (s : Runtime T.Ledger) → s.vote.vote_states ≡ [] → s.vote.vote_logger ≡ [] → Reachable T s
  next : {s t : Runtime T.Ledger} → Reachable T s → Step T s t → Reachable T t

abbrev without : VoteStore → VoteStore
without v = record v { vote_states = []; vote_logger = [] }

without-IsCounted : (v : VoteStore) → IsCounted (without v)
unfolding Map.get DoubleMap.get
without-IsCounted v = record {
  tallied = λ j x h. ground (arith, h);
  unused = λ j above. refl;
  unminted = λ j w above. refl;
}

register-IsCounted :
    {L : Type 0} (t : ThresholdInput OrgRep) (s : Runtime L)
    → IsCounted s.vote
    → IsCounted (register_threshold t s).1.vote
unfolding register_threshold
register-IsCounted t s c = record { tallied = c.tallied; unused = c.unused; unminted = c.unminted }

module _ (T : Config) where
  Step-IsCounted : {s t : Runtime T.Ledger} → Step T s t → IsCounted s.vote → IsCounted t.vote
  Step-IsCounted {s} (open_signal topic rep threshold duration room voters) c =
      open_vote-IsCounted T topic rep duration s c room voters threshold
  Step-IsCounted {s} (open_percent topic rep threshold duration room voters) c =
      open_percent_vote-IsCounted T topic rep duration s c room voters threshold
  Step-IsCounted {s} (vote id who direction justification) c =
      vote_on_proposal-IsCounted id who direction justification s c
  Step-IsCounted {s} (extend id blocks) c = extend_vote_length-IsCounted id s c blocks
  Step-IsCounted {s} (new_topic id topic) c = update_vote_topic-IsCounted id s c topic
  Step-IsCounted {s} (register t) c = register-IsCounted t s c
  Step-IsCounted {s} (elsewhere t same) c = subst IsCounted (sym same) c

  -- In every state that opening votes, voting, extending them, new topics and registered thresholds
  -- lead to from one without votes, in any order and by anybody, the tallies of every vote are the
  -- sums over its logged votes. It is about votes that are opened for a sound electorate, under an
  -- identifier that is left, and about topics that keep the tallies.
  pub Reachable-IsCounted : {s : Runtime T.Ledger} → Reachable T s → IsCounted s.vote
  Reachable-IsCounted (begin s no_vote no_log) =
      subst (λ m. IsCounted (record s.vote { vote_logger = m })) (sym no_log)
        (subst (λ m. IsCounted (record s.vote { vote_states = m; vote_logger = [] })) (sym no_vote)
          (without-IsCounted s.vote))
  Reachable-IsCounted (next r st) = Step-IsCounted st (Reachable-IsCounted r)
