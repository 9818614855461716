-- ===== src/Vote/Tally/Opening.antt =====
-- Opening a vote keeps the invariant of the vote pallet, also where it fails after the minting.
use sunshine_node.Prelude.{
  ℕ, ◌+◌, ◌<◌, ◌≡◌, ◌≢◌, refl, sym, ◌∙◌, ap, subst, inl, inr, Bool, false, Option, some, none,
  arith, ◌==◌, length, Bool-cases, Option-cases, ==_iff, if◌then◌else◌,
}
use sunshine_node.Word.{u64_mod, add64, add32}
use sunshine_node.Storage.Map
use sunshine_node.Storage.DoubleMap
use sunshine_node.Storage.DoubleMap.{DoubleMap}
use sunshine_node.Storage.Fresh.{next_free, next_id_fresh}
use sunshine_node.Dispatch.{DispatchError, VoteError, Result, err}
use sunshine_node.Util.Organization.{OrgRep}
use sunshine_node.Util.Vote
use sunshine_node.Util.Vote.{VoteState, Threshold, VoterView, in_favor, against, same_view}
use sunshine_node.Runtime.{Runtime, VoteStore, Config, Call}
use sunshine_node.Exec.{continue, bind-ok, bind-err, ◌>>=◌}
use sunshine_node.Vote.Base.{valid_signal_threshold, from_permill_to_signal}
use sunshine_node.Vote.Open.{
  ends_at, mint_each, mint, mint_for, start_vote, open_vote, open_percent_vote,
}
use sunshine_node.Vote.Tally.Sums.{cast, any, tally}
use sunshine_node.Vote.Tally.Minting.{
  Clear, tally-mint_each, tally-mint_each_ne, get-mint_each_ne, tally_of_none,
}
use sunshine_node.Vote.Tally.Invariant.{IsTallied, IsCounted}
use sunshine_node.Vote.Tally.Electorate.{
  Electorate, IsElectorate, electorate, mint_for-some, mint_for-none,
}

-- The identifiers do not run out: the counter and the loop stay below 2^64.
abbrev pub HasRoom : VoteStore → Type 0
HasRoom v = v.vote_id_counter + 1 + length v.vote_states < u64_mod

abbrev pub next_id : VoteStore → ℕ
next_id v = next_free (length v.vote_states + 1) v.vote_states (add64 v.vote_id_counter 1)

-- The storage after the identifier, after the minting, and after the new state.
abbrev pub numbered : VoteStore → VoteStore
numbered v = record v { vote_id_counter = next_id v }

abbrev pub minted_store : VoteStore → Electorate → VoteStore
minted_store v e = record v {
  vote_id_counter = next_id v;
  vote_logger = mint_each (next_id v) e.group v.vote_logger;
  total_signal_issuance = Map.insert v.total_signal_issuance (next_id v) e.total;
}

abbrev pub started : VoteStore → Electorate → VoteState → VoteStore
started v e st = record (minted_store v e) {
  vote_states = Map.insert v.vote_states (next_id v) st;
  open_vote_counter = add32 v.open_vote_counter 1;
}

module _ (v : VoteStore) (c : IsCounted v) (room : HasRoom v) where
  counter-lt : v.vote_id_counter < next_id v
  counter-lt = (next_id_fresh v.vote_states v.vote_id_counter room).0

  next_id-free : Map.get v.vote_states (next_id v) ≡ none
  next_id-free = c.unused (next_id v) counter-lt

  numbered-IsCounted : IsCounted (numbered v)
  numbered-IsCounted = record {
    tallied = c.tallied;
    unused = λ j above. c.unused j (omega (arith, counter-lt));
    unminted = λ j w above. c.unminted j w (omega (arith, counter-lt));
  }

  module _ (e : Electorate) (is : IsElectorate e) where
    minted_other :
        (j : ℕ) (st : VoteState)
        → next_id v ≢ j
        → IsTallied v.vote_logger j st
        → IsTallied (mint_each (next_id v) e.group v.vote_logger) j st
    minted_other j st ne t = record {
      favor_sum = t.favor_sum ∙ sym (tally-mint_each_ne _ (next_id v) j e.group v.vote_logger ne);
      against_sum =
          t.against_sum ∙ sym (tally-mint_each_ne _ (next_id v) j e.group v.vote_logger ne);
      turnout_sum =
          t.turnout_sum ∙ sym (tally-mint_each_ne _ (next_id v) j e.group v.vote_logger ne);
      possible_sum =
          t.possible_sum ∙ sym (tally-mint_each_ne _ (next_id v) j e.group v.vote_logger ne);
      bounded = t.bounded;
    }

    clear : Clear (next_id v) e.group v.vote_logger
    clear who shares h = c.unminted (next_id v) who counter-lt

    tally_minted :
        (p : VoterView → Bool)
        → tally p (next_id v) (mint_each (next_id v) e.group v.vote_logger)
          ≡ (if p VoterView.uninitialized then e.total else 0)
    tally_minted p = ground (
      arith,
      is.adds_up,
      tally-mint_each p (next_id v) e.group v.vote_logger is.distinct clear,
      tally_of_none p (next_id v) v.vote_logger (λ who. c.unminted (next_id v) who counter-lt),
    )

    new-IsTallied :
        (topic : Option ℕ) (threshold : Threshold) (now : ℕ) (ends : Option ℕ)
        → IsTallied
            (mint_each (next_id v) e.group v.vote_logger)
            (next_id v)
            (Vote.new topic e.total threshold now ends)
    new-IsTallied topic threshold now ends = record {
      favor_sum = sym (tally_minted (same_view in_favor));
      against_sum = sym (tally_minted (same_view against));
      turnout_sum = sym (tally_minted cast);
      possible_sum = sym (tally_minted any);
      bounded = is.fits;
    }

    unminted_after :
        (j w : ℕ)
        → next_id v < j
        → DoubleMap.get (mint_each (next_id v) e.group v.vote_logger) j w ≡ none
    unminted_after j w above =
        get-mint_each_ne (next_id v) j w e.group v.vote_logger (omega arith)
        ∙ c.unminted j w (omega (arith, counter-lt))

    minted-IsCounted : IsCounted (minted_store v e)
    minted-IsCounted = record {
      tallied = λ j st h.
          minted_other j st
            (λ same. ground (arith, subst (λ k. Map.get v.vote_states k ≡ none) same next_id-free))
            (c.tallied j st h);
      unused = λ j above. c.unused j (omega (arith, counter-lt));
      unminted = unminted_after;
    }

    started-IsCounted :
        (topic : Option ℕ) (threshold : Threshold) (now : ℕ) (ends : Option ℕ)
        → IsCounted (started v e (Vote.new topic e.total threshold now ends))
    started-IsCounted topic threshold now ends =
        let st' = Vote.new topic e.total threshold now ends in
        record {
          tallied = λ j st h. elim (Bool-cases (next_id v == j)) [
            | inl self ↦
                subst (λ k. IsTallied (mint_each (next_id v) e.group v.vote_logger) k st)
                  ((==_iff (next_id v) j).0 self)
                  (subst
                    (λ x. IsTallied (mint_each (next_id v) e.group v.vote_logger) (next_id v) x)
                    (ground (arith, Map.get-insert v.vote_states (next_id v) j st'))
                    (new-IsTallied topic threshold now ends))
            | inr other ↦
                minted_other j st (λ same. ground arith)
                  (c.tallied j st (ground (arith, Map.get-insert v.vote_states (next_id v) j st')))
          ];
          unused = λ j above.
              ground
                (arith, Map.get-insert v.vote_states (next_id v) j st', counter-lt, c.unused j);
          unminted = unminted_after;
        }

module _ (T : Config) (topic : Option ℕ) (rep : OrgRep) (duration : Option ℕ) (s : Runtime T.Ledger)
    (c : IsCounted s.vote) (room : HasRoom s.vote)
    (voters : (e : Electorate) → electorate T s.org rep ≡ some e → IsElectorate e) where
  abbrev after_id : Runtime T.Ledger
  after_id = record s { vote = numbered s.vote }

  -- Both ways to open a vote: the threshold may depend on the signal that is minted.
  module _ (threshold : ℕ → Threshold) where
    abbrev rest : ℕ → Call T ℕ
    rest total =
        start_vote T (next_id s.vote) topic total (threshold total) s.block_number
          (ends_at s.block_number duration)

    rest-IsCounted :
        (e : Electorate)
        → IsElectorate e
        → IsCounted ((mint (next_id s.vote) e.group e.total >>= rest) after_id).1.vote
    unfolding mint start_vote
    rest-IsCounted e is = elim (Bool-cases (valid_signal_threshold (threshold e.total) e.total)) [
      | inl valid ↦ rw valid (
          started-IsCounted s.vote c room e is topic (threshold e.total) s.block_number
            (ends_at s.block_number duration))
      | inr exceeds ↦ rw exceeds (minted-IsCounted s.vote c room e is)
    ]

    opening-IsCounted : IsCounted ((mint_for T (next_id s.vote) rep >>= rest) after_id).1.vote
    opening-IsCounted = elim (Option-cases (electorate T s.org rep)) [
      | inl nobody ↦
          let (x, fails) = mint_for-none T (next_id s.vote) rep after_id nobody in
          subst (λ r. IsCounted r.1.vote)
            (sym (bind-err (mint_for T (next_id s.vote) rep) rest after_id fails))
            (numbered-IsCounted s.vote c room)
      | inr (e, is) ↦
          subst (λ r. IsCounted r.1.vote)
            (ap (λ (r : Result ℕ × Runtime T.Ledger). continue r.0 rest r.1)
              (sym (mint_for-some T (next_id s.vote) rep after_id e is)))
            (rest-IsCounted e (voters e is))
    ]

  -- `open_vote` keeps the invariant, whether it succeeds or fails, at whichever step. Identifiers must
  -- be left, and the electorate be sound: nobody twice, and a total that is the sum and fits a u64.
  pub open_vote-IsCounted :
      (threshold : Threshold) → IsCounted (open_vote T topic rep threshold duration s).1.vote
  unfolding open_vote
  open_vote-IsCounted threshold = opening-IsCounted (λ _. threshold)

  -- `open_percent_vote` keeps the invariant in the same way, under the same conditions.
  pub open_percent_vote-IsCounted :
      (threshold : Threshold)
      → IsCounted (open_percent_vote T topic rep threshold duration s).1.vote
  unfolding open_percent_vote
  open_percent_vote-IsCounted threshold = opening-IsCounted (from_permill_to_signal T threshold)

module _ (T : Config) (topic : Option ℕ) (rep : OrgRep) (threshold : Threshold)
    (duration : Option ℕ) (s : Runtime T.Ledger) (e : Electorate)
    (is : electorate T s.org rep ≡ some e) where
  exceeds_state :
      valid_signal_threshold threshold e.total ≡ false
      → open_vote T topic rep threshold duration s ≡ (
        err (DispatchError.vote VoteError.input_threshold_exceeds_bounds),
        record s { vote = minted_store s.vote e },
      )
  unfolding open_vote mint start_vote
  exceeds_state exceeds =
      bind-ok (mint_for T (next_id s.vote) rep)
        (λ total.
          start_vote T (next_id s.vote) topic total threshold s.block_number
            (ends_at s.block_number duration))
        (record s { vote = numbered s.vote })
        (mint_for-some T (next_id s.vote) rep (record s { vote = numbered s.vote }) e is)
      ∙ rw exceeds

  -- Where the storage is sound, identifiers are left and the electorate is sound, a threshold above
  -- its signal is refused only after the minting: the error leaves the counter at an identifier that
  -- was not in use, all the signal of the electorate in the log under it, and no vote under it.
  pub open_vote_exceeds :
      IsCounted s.vote
      → HasRoom s.vote
      → IsElectorate e
      → valid_signal_threshold threshold e.total ≡ false
      → let r = open_vote T topic rep threshold duration s in
        let id = r.1.vote.vote_id_counter in
        (r.0 ≡ err (DispatchError.vote VoteError.input_threshold_exceeds_bounds))
        × (s.vote.vote_id_counter < id)
        × (tally any id s.vote.vote_logger ≡ 0)
        × (tally any id r.1.vote.vote_logger ≡ e.total)
        × (Map.get r.1.vote.vote_states id ≡ none)
  open_vote_exceeds c room sound exceeds =
      let unused =
        tally_of_none any (next_id s.vote) s.vote.vote_logger
          (λ who. c.unminted (next_id s.vote) who (counter-lt s.vote c room)) in
      rw (exceeds_state exceeds) (
        refl,
        counter-lt s.vote c room,
        unused,
        tally_minted s.vote c room e sound any,
        next_id-free s.vote c room,
      )
