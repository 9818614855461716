-- ===== src/Org/Ownership/Wrapping.antt =====
-- A batch whose shares wrap around is not refused.
use sunshine_node.Prelude.{ℕ, ◌+◌, ◌<◌, ◌≡◌, ◌≢◌, ◌∙◌, ap, true, List, [], ◌∷◌, arith, ltb}
use sunshine_node.Word.{u64_mod, add64}
use sunshine_node.Dispatch.{ok}
use sunshine_node.Util.Share.{from_vec, sum_from, verify_shape-from_vec}
use sunshine_node.Prelude.{dedup, dedup_from}
use sunshine_node.Runtime.{Runtime}
use sunshine_node.Org.Issuance.{batch_issue}
use sunshine_node.Org.Holdings.{credit_all}
use sunshine_node.Org.Ownership.Batch.{base, batch_issue-ok, batch_issue-org}

module _ (a b x y : ℕ) (differ : a ≢ b) (around : x + y ≡ u64_mod) where
  abbrev pub pair : List (ℕ × ℕ)
  pair = (a, x) ∷ (b, y) ∷ []

  pair-vec : (from_vec pair).vec ≡ pair
  unfolding from_vec dedup dedup_from
  pair-vec = ground (arith, differ)

  pair-total : (from_vec pair).total ≡ 0
  unfolding from_vec dedup dedup_from sum_from add64
  pair-total = ground (arith, differ, around)

  -- Two accounts whose shares sum up to 2^64 pass the check of `batch_issue` as a batch of no shares:
  -- both are given theirs, and the total that is returned is the one before.
  pub batch_issue_wraps :
      {L : Type 0} (o : ℕ) (s : Runtime L)
      → base o s < u64_mod
      → ((batch_issue o (from_vec pair) s).0 ≡ ok (base o s))
        × ((batch_issue o (from_vec pair) s).1.org
            ≡ record s.org { members = credit_all o pair s.org.members })
  batch_issue_wraps o s bounded =
      let fits : ltb (base o s + (from_vec pair).total) u64_mod ≡ true =
        ground (arith, pair-total) in
      (
        batch_issue-ok o (from_vec pair) (verify_shape-from_vec pair) s fits
            ∙ ap (λ (n : ℕ). ok n) (omega (arith, pair-total)),
        batch_issue-org o (from_vec pair) (verify_shape-from_vec pair) s fits
            ∙ ap (λ (l : List (ℕ × ℕ)). record s.org { members = credit_all o l s.org.members })
                pair-vec,
      )
