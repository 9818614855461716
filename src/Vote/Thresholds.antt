-- ===== src/Vote/Thresholds.antt =====
-- A threshold that is registered is the one that is invoked.
use sunshine_node.Prelude.{ℕ, ◌+◌, ◌≡◌, refl, ◌∙◌, true, Option, some, arith, length}
use sunshine_node.Word.{add64}
use sunshine_node.Storage.Map
use sunshine_node.Storage.Fresh.{next_free}
use sunshine_node.Exec.{bind-ok, ◌>>=◌}
use sunshine_node.Dispatch.{ok, Result}
use sunshine_node.Util.Organization.{OrgRep}
use sunshine_node.Util.Vote
use sunshine_node.Util.Vote.{Threshold, ThresholdInput, ThresholdConfig, VoteState, XorThreshold}
use sunshine_node.Runtime.{Runtime, Config}
use sunshine_node.Vote.Base.{register_threshold, valid_signal_threshold, from_permill_to_signal}
use sunshine_node.Vote.Open.{
  open_vote, open_percent_vote, invoke_threshold, open_by, start_vote, mint, mint_for, ends_at,
}
use sunshine_node.Vote.Tally.Electorate.{Electorate, electorate, mint_for-some}
use sunshine_node.Vote.Tally.Opening.{next_id, numbered, started}

get-insert_self {ℓ} :
    {V : Type ℓ} (m : Map.Map V) (id : ℕ) (v : V) → Map.get (Map.insert m id v) id ≡ some v
get-insert_self m id v = ground (arith, Map.get-insert m id id v)

module _ (T : Config) where
  -- What a threshold asks for, in signal, of an electorate with this total.
  abbrev pub signal_of : XorThreshold → ℕ → Threshold
  signal_of (XorThreshold.signal t) total = t
  signal_of (XorThreshold.percent t) total = from_permill_to_signal T t total

  module _ (topic : Option ℕ) (rep : OrgRep) (duration : Option ℕ) (s : Runtime T.Ledger)
      (e : Electorate) (is : electorate T s.org rep ≡ some e) where
    abbrev vote_of : Threshold → VoteState
    vote_of t = Vote.new topic e.total t s.block_number (ends_at s.block_number duration)

    abbrev opened : Threshold → Result ℕ × Runtime T.Ledger
    opened t = (ok (next_id s.vote), record s { vote = started s.vote e (vote_of t) })

    module _ (threshold : ℕ → Threshold)
        (valid : valid_signal_threshold (threshold e.total) e.total ≡ true) where
      starts :
          (mint_for T (next_id s.vote) rep >>= λ total.
          start_vote T
            (next_id s.vote)
            topic
            total
            (threshold total)
            s.block_number
            (ends_at s.block_number duration))
            (record s { vote = numbered s.vote })
          ≡ opened (threshold e.total)
      unfolding mint start_vote
      starts =
          bind-ok (mint_for T (next_id s.vote) rep)
            (λ total.
              start_vote T (next_id s.vote) topic total (threshold total) s.block_number
                (ends_at s.block_number duration))
            (record s { vote = numbered s.vote })
            (mint_for-some T (next_id s.vote) rep (record s { vote = numbered s.vote }) e is)
          ∙ rw valid refl

    open_by-opened :
        (x : XorThreshold)
        → valid_signal_threshold (signal_of x e.total) e.total ≡ true
        → open_by T x topic rep duration s ≡ opened (signal_of x e.total)
    unfolding open_vote open_percent_vote
    open_by-opened (XorThreshold.signal t) valid = starts (λ _. t) valid
    open_by-opened (XorThreshold.percent t) valid = starts (from_permill_to_signal T t) valid

  -- Registering a threshold returns an identifier. Where the organization of the threshold has an
  -- electorate, whose signal the threshold does not exceed, invoking that identifier opens a vote: the
  -- state stored under the identifier that it returns is the new one of the given topic and duration,
  -- with the electorate's signal and the threshold, a part of that signal if it counts by parts.
  pub invoke-register :
      (t : ThresholdInput OrgRep) (topic duration : Option ℕ) (s : Runtime T.Ledger)
      (e : Electorate)
      → electorate T s.org t.org ≡ some e
      → valid_signal_threshold (signal_of t.threshold e.total) e.total ≡ true
      → let r = register_threshold t s in
        (id : ℕ) × (vote_id : ℕ) × (r.0 ≡ ok id)
        × ((invoke_threshold T id topic duration r.1).0 ≡ ok vote_id)
        × (Map.get (invoke_threshold T id topic duration r.1).1.vote.vote_states vote_id
            ≡ some (
                Vote.new topic e.total
                  (signal_of t.threshold e.total)
                  s.block_number
                  (ends_at s.block_number duration)))
  unfolding register_threshold invoke_threshold
  invoke-register t topic duration s e is valid =
      let id =
        next_free (length s.vote.vote_thresholds + 1) s.vote.vote_thresholds
          (add64 s.vote.threshold_id_counter 1) in
      let config : ThresholdConfig OrgRep = record {
        id = id;
        org = t.org;
        threshold = t.threshold;
      } in
      let registered = (register_threshold t s).1 in
      let known = get-insert_self s.vote.vote_thresholds id config in
      let done = open_by-opened topic t.org duration registered e is t.threshold valid in
      (
        id,
        next_id s.vote,
        refl,
        rw (known, done) refl,
        rw (known, done) (get-insert_self s.vote.vote_states (next_id s.vote) _),
      )
