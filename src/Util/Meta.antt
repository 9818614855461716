-- ===== src/Util/Meta.antt =====
-- utils/src/meta.rs: what decides for a foundation, a supervisor or a vote.
use sunshine_node.Prelude.{ℕ, Bool, false, Option, none, some, ◌==◌}
use sunshine_node.Util.Vote.{Threshold}

pub record VoteCall (Org : Type 0) : Type 0 where
  pub org : Org
  pub threshold : Threshold
  pub duration : Option ℕ

pub data VoteMetadata (Org : Type 0) : Type 0 where
  signal : VoteCall Org → VoteMetadata Org
  percentage : VoteCall Org → VoteMetadata Org

module _ {Org : Type 0} where
  abbrev pub org_of : VoteMetadata Org → Org
  org_of (VoteMetadata.signal v) = v.org
  org_of (VoteMetadata.percentage v) = v.org

  abbrev pub duration_of : VoteMetadata Org → Option ℕ
  duration_of (VoteMetadata.signal v) = v.duration
  duration_of (VoteMetadata.percentage v) = v.duration

pub record ResolutionMetadata (Vote : Type 0) : Type 0 where
  pub sudo : Option ℕ
  pub vote : Option Vote

abbrev sudo_is : Option ℕ → ℕ → Bool
sudo_is none who = false
sudo_is (some s) who = s == who

module _ {Vote : Type 0} where
  abbrev pub new : Option ℕ → Option Vote → Option (ResolutionMetadata Vote)
  new none none = none
  new none (some vote) = some (record { sudo = none; vote = some vote })
  new (some sudo) vote = some (record { sudo = some sudo; vote = vote })

  abbrev pub is_sudo : ResolutionMetadata Vote → ℕ → Bool
  is_sudo gov who = sudo_is gov.sudo who
