-- ===== src/Grant/Awards.antt =====
-- Milestones stand under applications that were approved: what the writes of the grant pallet do to
-- that.
use sunshine_node.Prelude.{
  ℕ, ◌≡◌, ◌⊎◌, refl, sym, ◌∙◌, ap, inl, inr, Bool, true, false, Option, none, some, arith, ◌==◌,
  ◌&&◌, Bool-cases,
}
use sunshine_node.Storage.Map
use sunshine_node.Storage.Map.{Distinct}
use sunshine_node.Storage.DoubleMap
use sunshine_node.Util.Grant.{
  GrantApplication, ApplicationState, MilestoneSubmission, is_live, awaiting_review,
}
use sunshine_node.Grant.Base.{GrantStore}

-- An application that is there and was approved.
abbrev pub is_awarded : Option GrantApplication → Bool
is_awarded none = false
is_awarded (some app) = is_live app.state

pub record IsAwarding (s : GrantStore) : Type 0 where
  pub once : Distinct s.applications
  pub awarded :
      (aid mid : ℕ) (m : MilestoneSubmission)
      → DoubleMap.get s.milestones aid mid ≡ some m
      → is_awarded (Map.get s.applications aid) ≡ true

awaiting_not_live :
    (state : ApplicationState) → awaiting_review state ≡ true → is_live state ≡ false
awaiting_not_live ApplicationState.submitted_awaiting_response h = refl
awaiting_not_live (ApplicationState.under_review_by_acceptance_committee v) h = refl
awaiting_not_live ApplicationState.approved_and_live h = sym h
awaiting_not_live ApplicationState.closed h = refl

module _ (s : GrantStore) (is : IsAwarding s) where
  -- An application is written over one that was not approved, or an approved one is written.
  pub put_application-IsAwarding :
      (id nonce : ℕ) (app : GrantApplication)
      → (is_awarded (Map.get s.applications id) ≡ false) ⊎ (is_live app.state ≡ true)
      → IsAwarding
          (record s { application_nonce = nonce; applications = Map.insert s.applications id app })
  put_application-IsAwarding id nonce app may = record {
    once = Map.insert-Distinct s.applications id app is.once;
    awarded = λ aid mid m h. elim (Bool-cases (id == aid)) [
      | inl self ↦ elim may [
        | inl unapproved ↦ ground (arith, is.awarded aid mid m h, unapproved)
        | inr live ↦ ground (arith, Map.get-insert s.applications id aid app, live)
      ]
      | inr other ↦ ground (arith, Map.get-insert s.applications id aid app, is.awarded aid mid m h)
    ];
  }

  pub remove_application-IsAwarding :
      (id : ℕ)
      → is_awarded (Map.get s.applications id) ≡ false
      → IsAwarding (record s { applications = Map.remove s.applications id })
  remove_application-IsAwarding id unapproved = record {
    once = Map.remove-Distinct s.applications id is.once;
    awarded = λ aid mid m h. elim (Bool-cases (id == aid)) [
      | inl self ↦ ground (arith, is.awarded aid mid m h, unapproved)
      | inr other ↦ ground (arith, Map.get-remove s.applications id aid, is.awarded aid mid m h)
    ];
  }

  pub put_milestone-IsAwarding :
      (aid mid : ℕ) (nonces : Map.Map ℕ) (m : MilestoneSubmission)
      → is_awarded (Map.get s.applications aid) ≡ true
      → IsAwarding (record s {
        milestone_nonce = nonces;
        milestones = DoubleMap.insert s.milestones aid mid m;
      })
  put_milestone-IsAwarding aid mid nonces m live = record {
    once = is.once;
    awarded = λ a b q h. elim (Bool-cases (aid == a && mid == b)) [
      | inl self ↦ ground (arith, live)
      | inr other ↦
          is.awarded a b q (ground (arith, h, DoubleMap.get-insert s.milestones aid mid a b m))
    ];
  }

  pub remove_milestone-IsAwarding :
      (aid mid : ℕ) → IsAwarding (record s { milestones = DoubleMap.remove s.milestones aid mid })
  remove_milestone-IsAwarding aid mid = record {
    once = is.once;
    awarded = λ a b q h.
        is.awarded a b q (ground (arith, h, DoubleMap.get-remove s.milestones aid mid a b));
  }

  pub unapproved_of :
      (id : ℕ) (app : GrantApplication)
      → Map.get s.applications id ≡ some app
      → awaiting_review app.state ≡ true
      → is_awarded (Map.get s.applications id) ≡ false
  unapproved_of id app found waits = ap is_awarded found ∙ awaiting_not_live app.state waits
