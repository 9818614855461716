-- ===== src/Util/Court.antt =====
-- utils/src/court.rs: sequences of votes that resolve disputes.
use sunshine_node.Prelude.{ℕ, Option, List}

-- Thresholds are compared by their rank alone.
pub record Threshold : Type 0 where
  pub rank : ℕ
  pub id : ℕ

pub record Court : Type 0 where
  pub id : ℕ
  pub controller : Option ℕ
  pub bond : ℕ
  pub vote_seq : List Threshold

-- `from_set` is the constructor of `OrderedSet`.
abbrev pub new : (List Threshold → List Threshold) → ℕ → Option ℕ → ℕ → List Threshold → Court
new from_set id controller bond vote_seq = record {
  id = id;
  controller = controller;
  bond = bond;
  vote_seq = from_set vote_seq;
}
