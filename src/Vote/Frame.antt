-- ===== src/Vote/Frame.antt =====
-- The vote pallet writes to its own storage only, as far as the bank pallet and the currency go.
use sunshine_node.Prelude.{ℕ, ◌+◌, length, ◌≡◌, refl, ◌∙◌, Option, inl, inr, arith, Option-cases}
use sunshine_node.Word.{add64}
use sunshine_node.Storage.Map
use sunshine_node.Storage.Fresh.{next_free}
use sunshine_node.Vote.Base.{from_permill_to_signal}
use sunshine_node.Dispatch.{Result, ok, err}
use sunshine_node.Exec.{Exec, continue}
use sunshine_node.Util.Organization.{OrgRep}
use sunshine_node.Util.Vote.{Threshold, XorThreshold}
use sunshine_node.Runtime.{Config, Runtime}
use sunshine_node.Vote.Open.{
  ends_at, mint_for, start_vote, open_vote, open_percent_vote, open_by, invoke_threshold,
}

-- What a call of the vote pallet leaves alone.
pub record OnlyVote {L : Type 0} (s s' : Runtime L) : Type 0 where
  pub bank_same : s'.bank ≡ s.bank
  pub ledger_same : s'.ledger ≡ s.ledger
  pub org_same : s'.org ≡ s.org

OnlyVote-trans : {L : Type 0} {s t u : Runtime L} → OnlyVote s t → OnlyVote t u → OnlyVote s u
OnlyVote-trans a b = record {
  bank_same = b.bank_same ∙ a.bank_same;
  ledger_same = b.ledger_same ∙ a.ledger_same;
  org_same = b.org_same ∙ a.org_same;
}

module _ {L A B : Type 0} (f : A → Exec (Runtime L) B)
    (rest : (a : A) (t : Runtime L) → OnlyVote t (f a t).1) where
  continue-OnlyVote :
      (r : Result A) (s t : Runtime L) → OnlyVote s t → OnlyVote s (continue r f t).1
  continue-OnlyVote (ok a) s t o = OnlyVote-trans o (rest a t)
  continue-OnlyVote (err e) s t o = o

module _ (T : Config) where
  mint_for-OnlyVote :
      (id : ℕ) (rep : OrgRep) (s : Runtime T.Ledger) → OnlyVote s (mint_for T id rep s).1
  unfolding mint_for
  mint_for-OnlyVote id (OrgRep.weighted o) s = ground arith
  mint_for-OnlyVote id (OrgRep.equal o) s = ground arith

  start_vote-OnlyVote :
      (id : ℕ) (topic : Option ℕ) (total : ℕ) (threshold : Threshold) (now : ℕ) (ends : Option ℕ)
      (s : Runtime T.Ledger)
      → OnlyVote s (start_vote T id topic total threshold now ends s).1
  unfolding start_vote
  start_vote-OnlyVote id topic total threshold now ends s = ground arith

  module _ (topic : Option ℕ) (rep : OrgRep) (duration : Option ℕ) (s : Runtime T.Ledger) where
    abbrev new_id : ℕ
    new_id =
        next_free (length s.vote.vote_states + 1) s.vote.vote_states
          (add64 s.vote.vote_id_counter 1)

    abbrev after_id : Runtime T.Ledger
    after_id = record s { vote = record s.vote { vote_id_counter = new_id } }

    -- Both ways to open a vote, after the identifier.
    opening-OnlyVote :
        (threshold : ℕ → Threshold) (now : ℕ) (ends : Option ℕ)
        → OnlyVote s
            (continue
              (mint_for T new_id rep after_id).0
              (λ total. start_vote T new_id topic total (threshold total) now ends)
              (mint_for T new_id rep after_id).1).1
    opening-OnlyVote threshold now ends =
        continue-OnlyVote (λ total. start_vote T new_id topic total (threshold total) now ends)
          (λ total t. start_vote-OnlyVote new_id topic total (threshold total) now ends t)
          (mint_for T new_id rep after_id).0 s (mint_for T new_id rep after_id).1
          (OnlyVote-trans (record { bank_same = refl; ledger_same = refl; org_same = refl })
            (mint_for-OnlyVote new_id rep after_id))

    pub open_vote-OnlyVote :
        (threshold : Threshold) → OnlyVote s (open_vote T topic rep threshold duration s).1
    unfolding open_vote
    open_vote-OnlyVote threshold =
        opening-OnlyVote (λ _. threshold) s.block_number (ends_at s.block_number duration)

    pub open_percent_vote-OnlyVote :
        (threshold : Threshold) → OnlyVote s (open_percent_vote T topic rep threshold duration s).1
    unfolding open_percent_vote
    open_percent_vote-OnlyVote threshold =
        opening-OnlyVote (from_permill_to_signal T threshold) s.block_number
          (ends_at s.block_number duration)

  open_by-OnlyVote :
      (x : XorThreshold) (topic : Option ℕ) (rep : OrgRep) (duration : Option ℕ)
      (s : Runtime T.Ledger)
      → OnlyVote s (open_by T x topic rep duration s).1
  open_by-OnlyVote (XorThreshold.signal t) topic rep duration s =
      open_vote-OnlyVote topic rep duration s t
  open_by-OnlyVote (XorThreshold.percent t) topic rep duration s =
      open_percent_vote-OnlyVote topic rep duration s t

  -- Opening a vote from a stored threshold changes neither the bank pallet, nor the currency, nor the
  -- org pallet, whether it succeeds or fails.
  pub invoke_threshold-OnlyVote :
      (id : ℕ) (topic duration : Option ℕ) (s : Runtime T.Ledger)
      → OnlyVote s (invoke_threshold T id topic duration s).1
  unfolding invoke_threshold
  invoke_threshold-OnlyVote id topic duration s =
      elim (Option-cases (Map.get s.vote.vote_thresholds id)) [
        | inl e ↦ rw e (record { bank_same = refl; ledger_same = refl; org_same = refl })
        | inr (config, e) ↦ rw e (open_by-OnlyVote config.threshold topic config.org duration s)
      ]
