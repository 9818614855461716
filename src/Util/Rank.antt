-- ===== src/Util/Rank.antt =====
-- utils/src/rank.rs: votes that rank candidates. A pair of an account and its signal is a choice.
use sunshine_node.Prelude.{ℕ, Bool, List, [], ◌==◌}

pub data BallotState : Type 0 where
  no_vote : BallotState
  voted : BallotState

pub record Ballot : Type 0 where
  pub key : ℕ × ℕ
  pub total : ℕ
  pub vote : List (ℕ × ℕ)
  pub state : BallotState

abbrev pub new_ballot : ℕ × ℕ → ℕ → Ballot
new_ballot key total = record { key = key; total = total; vote = []; state = BallotState.no_vote }

pub data VoteState : Type 0 where
  opened : VoteState
  locked : VoteState

pub record VoteBoard : Type 0 where
  pub id : ℕ
  pub topic : ℕ
  pub controller : ℕ
  pub choices : List (ℕ × ℕ)
  pub state : VoteState

abbrev pub new : ℕ → ℕ → ℕ → List (ℕ × ℕ) → VoteBoard
new id topic controller choices = record {
  id = id;
  topic = topic;
  controller = controller;
  choices = choices;
  state = VoteState.opened;
}

abbrev pub is_controller : VoteBoard → ℕ → Bool
is_controller b who = b.controller == who

abbrev pub lock : VoteBoard → VoteBoard
lock b = record b { state = VoteState.locked }
