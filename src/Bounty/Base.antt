-- ===== src/Bounty/Base.antt =====
-- The storage, the events and the identifiers of the bounty pallet.
use sunshine_node.Prelude.{ℕ, ◌+◌, Bool, is_none, [], ◌∷◌, length, ◌==◌, if◌then◌else◌}
use sunshine_node.Word.{add64}
use sunshine_node.Storage.Map
use sunshine_node.Storage.Map.{Map}
use sunshine_node.Storage.DoubleMap.{DoubleMap}
use sunshine_node.Storage.Fresh.{next_free}
use sunshine_node.Exec.{Exec, pure, gets, ◌>>=◌, ◌>>◌}
use sunshine_node.Util.Bounty.{BountyInformation, Contribution, BountySubmission, SubmissionState}
use sunshine_node.Runtime.{Pallet, Money, on_store}

pub data BountyEvent : Type 0 where
  bounty_posted : ℕ → ℕ → ℕ → ℕ → BountyEvent
  bounty_raise_contribution : ℕ → ℕ → ℕ → ℕ → ℕ → BountyEvent
  bounty_submission_posted : ℕ → ℕ → ℕ → ℕ → ℕ → ℕ → BountyEvent
  bounty_payment_executed : ℕ → ℕ → ℕ → ℕ → ℕ → ℕ → ℕ → BountyEvent

-- An issue, a vector of bytes in the source, is a number here.
pub record BountyStore : Type 0 where
  pub bounty_nonce : ℕ
  pub submission_nonce : ℕ
  pub issue_hash_set : Map (Unit {0})
  pub bounties : Map BountyInformation
  pub contributions : DoubleMap Contribution
  pub submissions : Map (BountySubmission SubmissionState)

abbrev pub State : Type 0 → Type 0
State L = Pallet (Money L) BountyStore BountyEvent

-- The constants of the pallet, and the account of a bounty.
pub record BountyTrait : Type 0 where
  pub bounty_account_id : ℕ → ℕ
  pub min_deposit : ℕ
  pub min_contribution : ℕ

unfoldable pub bounty_id_is_available : BountyStore → ℕ → Bool
bounty_id_is_available s id = is_none (Map.get s.bounties id)

unfoldable pub submission_id_is_available : BountyStore → ℕ → Bool
submission_id_is_available s id = is_none (Map.get s.submissions id)

-- The entries that the filter of the loop leaves.
unfoldable pub other_submissions :
    Map (BountySubmission SubmissionState) → ℕ → Map (BountySubmission SubmissionState)
other_submissions [] id = []
other_submissions ((app_id, app) ∷ m) id =
    let rest = other_submissions m id in if app.id.0 == id then rest else (app_id, app) ∷ rest

module _ {L : Type 0} where
  -- The loops have one round more than there are entries.
  unfoldable pub bounty_generate_uid : Exec (State L) ℕ
  bounty_generate_uid = do
    s ← gets (λ s. s.store)
    let id_counter = next_free (length s.bounties + 1) s.bounties (add64 s.bounty_nonce 1)
    on_store (λ s. record s { bounty_nonce = id_counter })
    pure id_counter

  unfoldable pub submission_generate_uid : Exec (State L) ℕ
  submission_generate_uid = do
    s ← gets (λ s. s.store)
    let id_counter = next_free (length s.submissions + 1) s.submissions (add64 s.submission_nonce 1)
    on_store (λ s. record s { submission_nonce = id_counter })
    pure id_counter

  -- The removal of a bounty with its submissions, which no call uses.
  unfoldable pub recursive_remove_bounty : ℕ → Exec (State L) (Unit {0})
  unfolding other_submissions
  recursive_remove_bounty id = on_store (λ s. record s {
    bounties = Map.remove s.bounties id;
    submissions = other_submissions s.submissions id;
  })
