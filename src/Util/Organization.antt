-- ===== src/Util/Organization.antt =====
-- utils/src/organization.rs: organizations, their sources and their relations.
use sunshine_node.Prelude.{ℕ, Bool, false, Option, none, some, List, ◌==◌}
use sunshine_node.Word.{add64, sub64}

pub record Relation : Type 0 where
  pub parent : ℕ
  pub child : ℕ

pub data OrgRep : Type 0 where
  weighted : ℕ → OrgRep
  equal : ℕ → OrgRep

abbrev pub org : OrgRep → ℕ
org (weighted o) = o
org (equal o) = o

pub record Organization : Type 0 where
  pub sudo : Option ℕ
  pub id : ℕ
  pub shares : ℕ
  pub constitution : ℕ

abbrev pub set_shares : Organization → ℕ → Organization
set_shares o a = record o { shares = a }

abbrev pub add_shares : Organization → ℕ → Organization
add_shares o a = record o { shares = add64 o.shares a }

abbrev pub subtract_shares : Organization → ℕ → Organization
subtract_shares o a = record o { shares = sub64 o.shares a }

abbrev sudo_is : Option ℕ → ℕ → Bool
sudo_is none cmp = false
sudo_is (some unwrapped_sudo) cmp = unwrapped_sudo == cmp

abbrev pub is_sudo : Organization → ℕ → Bool
is_sudo o cmp = sudo_is o.sudo cmp

abbrev pub clear_sudo : Organization → Organization
clear_sudo o = record o { sudo = none }

abbrev pub put_sudo : Organization → ℕ → Organization
put_sudo o new_sudo = record o { sudo = some new_sudo }

pub data OrganizationSource : Type 0 where
  accounts : List ℕ → OrganizationSource
  accounts_weighted : List (ℕ × ℕ) → OrganizationSource
