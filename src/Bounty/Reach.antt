-- ===== src/Bounty/Reach.antt =====
-- The calls of the bounty pallet as a step relation, and what every reachable state satisfies.
use sunshine_node.Prelude.{ℕ, ◌≤◌, ◌≡◌, some, arith, [], ◌∷◌}
use sunshine_node.Storage.Map
use sunshine_node.Util.Bounty.{BountyInformation}
use sunshine_node.Runtime.{Config, Money, CurrencyLaws}
use sunshine_node.Bounty.Base.{State, BountyTrait}
use sunshine_node.Bounty.Calls.{
  post_bounty, contribute_to_bounty, submit_for_bounty, approve_bounty_submission,
}
use sunshine_node.Bounty.Solvency.{
  Escrow, IsSolvent, post-IsSolvent, contribute-IsSolvent, submit-IsSolvent, approve-IsSolvent,
}

-- What can happen to the pallet: its calls, in any order and by anybody, and between them whatever
-- takes no money out of the accounts of the bounties.
pub data Step (T : Config) (K : BountyTrait) (s : State T.Ledger) : State T.Ledger → Type 0 where
  post :
      (origin : T.Origin) (issue info amount : ℕ)
      → Step T K s (post_bounty T K origin issue info amount s).1
  contribute :
      (origin : T.Origin) (b amount : ℕ) → Step T K s (contribute_to_bounty T K origin b amount s).1
  submit :
      (origin : T.Origin) (b issue submission_ref amount : ℕ)
      → Step T K s (submit_for_bounty T K origin b issue submission_ref amount s).1
  approve : (origin : T.Origin) (i : ℕ) → Step T K s (approve_bounty_submission T K origin i s).1
  elsewhere :
      (base : Money T.Ledger)
      → ((b : ℕ)
          → T.total_balance s.base.ledger (K.bounty_account_id b)
            ≤ T.total_balance base.ledger (K.bounty_account_id b))
      → Step T K s (record s { base = base })

pub data Reachable (T : Config) (K : BountyTrait) : State T.Ledger → Type 0 where
  begin : (s : State T.Ledger) → s.store.bounties ≡ [] → s.store.submissions ≡ [] → Reachable T K s
  next : {s t : State T.Ledger} → Reachable T K s → Step T K s t → Reachable T K t

nothing_stored : {V : Type 0} (m : Map.Map V) (k : ℕ) (v : V) → m ≡ [] → Map.get m k ≡ some v → ⊥
unfolding Map.get
nothing_stored [] k v e h = ground arith
nothing_stored (x ∷ m) k v e h = ground arith

module _ (T : Config) (K : BountyTrait) (ed : ℕ) (laws : CurrencyLaws T ed) (escrow : Escrow T K)
    (least : ed ≤ K.min_deposit) where
  Step-IsSolvent : {s t : State T.Ledger} → Step T K s t → IsSolvent T K s → IsSolvent T K t
  Step-IsSolvent {s} (post origin issue info amount) is =
      post-IsSolvent T K ed laws escrow s is origin issue info amount least
  Step-IsSolvent {s} (contribute origin b amount) is =
      contribute-IsSolvent T K ed laws escrow s is origin b amount
  Step-IsSolvent {s} (submit origin b issue submission_ref amount) is =
      submit-IsSolvent T K ed laws escrow s is origin b issue submission_ref amount
  Step-IsSolvent {s} (approve origin i) is = approve-IsSolvent T K ed laws escrow s is origin i
  Step-IsSolvent {s} (elsewhere base kept) is = record {
    funded = λ b x h. omega (arith, is.funded b x h, kept b);
    outside = is.outside;
  }

  -- In every state that the calls of the pallet lead to from one without bounties, in any order and
  -- by anybody, the account of each bounty holds at least the total that the bounty states. It asks
  -- for the laws of the currency, for accounts of bounties that are their own and sign no call, for
  -- a least deposit that is no less than the existential deposit, and that steps elsewhere leave the
  -- accounts of bounties no less.
  pub Reachable-funded :
      {s : State T.Ledger}
      → Reachable T K s
      → (b : ℕ) (x : BountyInformation) → Map.get s.store.bounties b ≡ some x
      → x.total ≤ T.total_balance s.base.ledger (K.bounty_account_id b)
  Reachable-funded r = (solvent r).funded
    where
      solvent : {s : State T.Ledger} → Reachable T K s → IsSolvent T K s
      solvent (begin s no_bounty no_submission) = record {
        funded = λ b x h. absurd (nothing_stored s.store.bounties b x no_bounty h);
        outside = λ i x h. absurd (nothing_stored s.store.submissions i x no_submission h);
      }
      solvent (next r st) = Step-IsSolvent st (solvent r)
