-- ===== src/Exec.antt =====
-- Code that reads and writes storage and may return an error. The pallets carry no
-- `#[transactional]` mark, so what was written before an error stays written: the state comes back
-- beside the error too.
use sunshine_node.Prelude.{◌≡◌, ap, Bool, true, false, Option, none, some, List, [], ◌∷◌}
use sunshine_node.Dispatch.{DispatchError, Result, ok, err}

abbrev pub Exec {ℓ κ} : Type ℓ → Type κ → Type (ℓ ⊔ κ)
Exec S A = S → Result A × S

module _ {ℓ κ} {S : Type ℓ} {A : Type κ} where
  abbrev pub pure : A → Exec S A
  pure a s = (ok a, s)

  abbrev pub raise : DispatchError → Exec S A
  raise e s = (err e, s)

  abbrev pub lift : Result A → Exec S A
  lift r s = (r, s)

  abbrev pub gets : (S → A) → Exec S A
  gets f s = (ok (f s), s)

  -- `ok_or(e)?`
  abbrev pub ok_or : Option A → DispatchError → Exec S A
  ok_or none e s = (err e, s)
  ok_or (some a) e s = (ok a, s)

  -- A call whose result is matched, not propagated by `?`.
  abbrev pub attempt : Exec S A → Exec S (Result A)
  attempt m s = let (r, s') = m s in (ok r, s')

  abbrev pub continue {μ} : {B : Type μ} → Result A → (A → Exec S B) → Exec S B
  continue (ok a) f s = f a s
  continue (err e) f s = (err e, s)

  infixl 10 ◌>>=◌
  abbrev pub ◌>>=◌ {μ} : {B : Type μ} → Exec S A → (A → Exec S B) → Exec S B
  ◌>>=◌ m f s = let (r, s') = m s in continue r f s'

module _ {ℓ κ μ} {S : Type ℓ} {A : Type κ} {B : Type μ} (m : Exec S A) (f : A → Exec S B)
    (s : S) where
  -- A bind, once the first part is computed.
  pub bind-ok : {a : A} {s' : S} → m s ≡ (ok a, s') → (m >>= f) s ≡ f a s'
  bind-ok e = ap (λ (r : Result A × S). continue r.0 f r.1) e

  pub bind-err : {e : DispatchError} {s' : S} → m s ≡ (err e, s') → (m >>= f) s ≡ (err e, s')
  bind-err e = ap (λ (r : Result A × S). continue r.0 f r.1) e

module _ {ℓ} {S : Type ℓ} where
  infixl 10 ◌>>◌
  abbrev pub ◌>>◌ {κ} : {A : Type κ} → Exec S (Unit {0}) → Exec S A → Exec S A
  m >> n = m >>= λ _. n

  abbrev pub modify : (S → S) → Exec S (Unit {0})
  modify f s = (ok tt, f s)

  -- `ensure!(test, e)`
  abbrev pub ensure : Bool → DispatchError → Exec S (Unit {0})
  ensure true e s = (ok tt, s)
  ensure false e s = (err e, s)

  abbrev pub when : Bool → Exec S (Unit {0}) → Exec S (Unit {0})
  when true m s = m s
  when false m s = (ok tt, s)

  -- `into_iter().for_each(f)`
  unfoldable pub for_each {κ} : {A : Type κ} → (A → Exec S (Unit {0})) → List A → Exec S (Unit {0})
  for_each f [] = pure tt
  for_each f (a ∷ l) = f a >> for_each f l
