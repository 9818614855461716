-- ===== src/Vote/Tally/Electorate.antt =====
-- Who votes, and with how much signal: what `mint_for` mints, as a function of the org storage.
use sunshine_node.Prelude.{
  ℕ, ◌%◌, ◌<◌, ◌≡◌, ap, Option, some, none, some-injective, List, map, length, arith,
}
use sunshine_node.Word.{u32_mod, u64_mod}
use sunshine_node.Storage.Map.{Distinct}
use sunshine_node.Dispatch.{DispatchError, VoteError, err}
use sunshine_node.Exec.{ok_or, ◌>>=◌}
use sunshine_node.Util.Organization.{OrgRep}
use sunshine_node.Util.Share.{WeightedVector, sum}
use sunshine_node.Runtime.{Runtime, Config, OrgStore}
use sunshine_node.Org
use sunshine_node.Vote.Open.{mint, mint_for}

pub record Electorate : Type 0 where
  pub group : List (ℕ × ℕ)
  pub total : ℕ

abbrev by_shares : Option WeightedVector → Option Electorate
by_shares none = none
by_shares (some w) = some (record { group = w.vec; total = w.total })

abbrev by_heads : Option (List ℕ) → Option Electorate
by_heads none = none
by_heads (some group) =
    some (record { group = map (λ who. (who, 1)) group; total = length group % u32_mod })

module _ (T : Config) where
  abbrev pub electorate : OrgStore → OrgRep → Option Electorate
  electorate s (OrgRep.weighted o) = by_shares (Org.get_membership_with_shape s o)
  electorate s (OrgRep.equal o) = by_heads (Org.get_group T.ordered_set s o)

  mint_shares :
      (id : ℕ) (s : Runtime T.Ledger) (e : Electorate) (o : Option WeightedVector)
      (x : DispatchError)
      → by_shares o ≡ some e
      → (ok_or o x >>= λ w. mint id w.vec w.total) s ≡ mint id e.group e.total s
  mint_shares id s e none x h = cc
  mint_shares id s e (some w) x h =
      ap (λ (k : Electorate). mint id k.group k.total s) (some-injective _ _ h)

  mint_heads :
      (id : ℕ) (s : Runtime T.Ledger) (e : Electorate) (o : Option (List ℕ)) (x : DispatchError)
      → by_heads o ≡ some e
      → (ok_or o x >>= λ g. mint id (map (λ who. (who, 1)) g) (length g % u32_mod)) s
        ≡ mint id e.group e.total s
  mint_heads id s e none x h = cc
  mint_heads id s e (some g) x h =
      ap (λ (k : Electorate). mint id k.group k.total s) (some-injective _ _ h)

  -- Minting succeeds for an electorate, and mints it.
  pub mint_for-some :
      (id : ℕ) (rep : OrgRep) (s : Runtime T.Ledger) (e : Electorate)
      → electorate s.org rep ≡ some e
      → mint_for T id rep s ≡ mint id e.group e.total s
  unfolding mint_for
  mint_for-some id (OrgRep.weighted o) s e h =
      mint_shares id s e (Org.get_membership_with_shape s.org o) _ h
  mint_for-some id (OrgRep.equal o) s e h =
      mint_heads id s e (Org.get_group T.ordered_set s.org o) _ h

  -- Where there is no electorate, minting fails and changes nothing.
  pub mint_for-none :
      (id : ℕ) (rep : OrgRep) (s : Runtime T.Ledger)
      → electorate s.org rep ≡ none
      → (x : DispatchError) × (mint_for T id rep s ≡ (err x, s))
  unfolding mint_for
  mint_for-none id (OrgRep.weighted o) s h =
      (DispatchError.vote VoteError.cannot_mint_signal_because_membership_shape_dne, ground arith)
  mint_for-none id (OrgRep.equal o) s h =
      (DispatchError.vote VoteError.cannot_mint_signal_because_group_membership_dne, ground arith)

-- The votes add up to the total, and nobody votes twice.
pub record IsElectorate (e : Electorate) : Type 0 where
  pub distinct : Distinct e.group
  pub adds_up : e.total ≡ sum e.group
  pub fits : e.total < u64_mod
