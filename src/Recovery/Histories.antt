-- ===== src/Recovery/Histories.antt =====
-- The history of a keeper: when it is in order, and what a commit and a reveal make of it.
use sunshine_node.Prelude.{
  ℕ, ◌<◌, ◌≡◌, refl, sym, ◌∙◌, ap, subst, Option, none, some, inl, inr, Option-cases, List, [], ◌∷◌,
  arith, All, some-injective,
}
use sunshine_node.Util.Recovery.{Commit, revealed, reveal}
use sunshine_node.Recovery.Base.{popped, pop, push}

-- A share that is revealed has the hash that its keeper committed to.
abbrev IsOpening : (ℕ → ℕ) → Option ℕ → ℕ → Type 0
IsOpening hash none h = Unit
IsOpening hash (some p) h = hash p ≡ h

abbrev pub IsOpened : (ℕ → ℕ) → Commit → Type 0
IsOpened hash c = IsOpening hash c.preimage c.hash

-- One commit for a round, and the rounds in order.
abbrev pub IsAscending : List Commit → Type 0
IsAscending [] = Unit
IsAscending (c ∷ l) = All (λ (d : Commit). c.round_id < d.round_id) l × IsAscending l

pub record IsHonest (hash : ℕ → ℕ) (l : List Commit) : Type 0 where
  pub ascending : IsAscending l
  pub opened : All (IsOpened hash) l

abbrev Before : ℕ → List Commit → Type 0
Before round l = All (λ (c : Commit). c.round_id < round) l

module _ {κ} (P : Commit → Type κ) where
  All-push : (l : List Commit) (x : Commit) → All P l → P x → All P (push l x)
  unfolding push
  All-push [] x h p = (p, tt)
  All-push (c ∷ l) x h p = (h.0, All-push l x h.1 p)

  All-init : (l : List Commit) (x : Commit) → All P (push l x) → All P l × P x
  unfolding push
  All-init [] x h = (tt, h.0)
  All-init (c ∷ l) x h = let (rest, p) = All-init l x h.1 in ((h.0, rest), p)

-- What `pop` takes apart, `push` puts together again.
popped-push : (c : Commit) (l : List Commit) → push (popped c l).0 (popped c l).1 ≡ c ∷ l
unfolding popped push
popped-push c [] = refl
popped-push c (d ∷ l) = ap (λ m. c ∷ m) (popped-push d l)

pub pop-push :
    (l rest : List Commit) (last : Commit) → pop l ≡ some (rest, last) → push rest last ≡ l
pop-push [] rest last e = ground arith
pop-push (c ∷ l) rest last e =
    subst (λ (r : List Commit × Commit). push r.0 r.1 ≡ c ∷ l) (some-injective _ _ e)
      (popped-push c l)

pub pop-none : (l : List Commit) → pop l ≡ none → l ≡ []
pop-none [] e = refl
pop-none (c ∷ l) e = ground arith

Ascending-push :
    (l : List Commit) (x : Commit) → IsAscending l → Before x.round_id l → IsAscending (push l x)
unfolding push
Ascending-push [] x a b = (tt, tt)
Ascending-push (c ∷ l) x a b =
    (All-push (λ (d : Commit). c.round_id < d.round_id) l x a.0 b.0, Ascending-push l x a.1 b.1)

Ascending-init :
    (l : List Commit) (x : Commit) → IsAscending (push l x) → IsAscending l × Before x.round_id l
unfolding push
Ascending-init [] x a = (tt, tt)
Ascending-init (c ∷ l) x a =
    let (rest, before) = Ascending-init l x a.1 in
    let (above, last) = All-init (λ (d : Commit). c.round_id < d.round_id) l x a.0 in
    ((above, rest), (last, before))

Before-trans : (l : List Commit) (m n : ℕ) → m < n → Before m l → Before n l
Before-trans [] m n h b = tt
Before-trans (c ∷ l) m n h b = (omega (arith, b.0), Before-trans l m n h b.1)

module _ (hash : ℕ → ℕ) where
  -- A commit to a hash, in a round after the last one.
  pub first-IsHonest :
      (round h : ℕ)
      → IsHonest hash (push [] (record { round_id = round; hash = h; preimage = none }))
  unfolding push
  first-IsHonest round h = record { ascending = (tt, tt); opened = (tt, tt) }

  pub next-IsHonest :
      (l rest : List Commit) (last : Commit) (round h : ℕ)
      → pop l ≡ some (rest, last)
      → last.round_id < round
      → IsHonest hash l
      → IsHonest hash
          (push (push rest last) (record { round_id = round; hash = h; preimage = none }))
  next-IsHonest l rest last round h taken later is =
      let same = pop-push l rest last taken in
      let ascending = subst IsAscending (sym same) is.ascending in
      let (_, before) = Ascending-init rest last ascending in
      record {
        ascending = Ascending-push (push rest last) _ ascending (
            All-push (λ (d : Commit). d.round_id < round) rest last
              (Before-trans rest last.round_id round later before) later);
        opened =
            All-push (IsOpened hash) (push rest last) _
              (subst (All (IsOpened hash)) (sym same) is.opened) tt;
      }

  -- A reveal in the place of the last commit.
  reveal-cases :
      (c d : Commit) (p : ℕ)
      → hash p ≡ c.hash
      → reveal c p ≡ some d
      → (d.round_id ≡ c.round_id) × IsOpened hash d
  reveal-cases c d p opens done = elim (Option-cases c.preimage) [
    | inr (q, shown) ↦ ground (arith, done, shown)
    | inl hidden ↦
        subst (λ (e : Commit). (e.round_id ≡ c.round_id) × IsOpened hash e)
          (some-injective (record c { preimage = some p }) d
            (sym (ap (λ o. revealed o c p) hidden) ∙ done))
          (refl, opens)
  ]

  pub revealed-IsHonest :
      (l rest : List Commit) (last new : Commit) (p : ℕ)
      → pop l ≡ some (rest, last)
      → hash p ≡ last.hash
      → reveal last p ≡ some new
      → IsHonest hash l
      → IsHonest hash (push rest new)
  revealed-IsHonest l rest last new p taken opens done is =
      let same = pop-push l rest last taken in
      let (ascending, before) =
        Ascending-init rest last (subst IsAscending (sym same) is.ascending) in
      let (opened, _) =
        All-init (IsOpened hash) rest last (subst (All (IsOpened hash)) (sym same) is.opened) in
      let (round, shown) = reveal-cases last new p opens done in
      record {
        ascending =
            Ascending-push rest new ascending (subst (λ n. Before n rest) (sym round) before);
        opened = All-push (IsOpened hash) rest new opened shown;
      }
