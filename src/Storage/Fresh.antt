-- ===== src/Storage/Fresh.antt =====
-- The loop behind every identifier of the pallets:
-- `while <Map>::get(id).is_some() { id += 1 }`, over u64 identifiers.
use sunshine_node.Prelude.{
  ℕ, zero, suc, ◌+◌, ◌≤◌, ◌<◌, ◌≡◌, true, none, [], ◌∷◌, arith, length, leb, is_some, if◌then◌else◌,
}
use sunshine_node.Word.{u64_mod, add64, add64-eq}
use sunshine_node.Storage.Map.{Map, get}

module _ {ℓ} {V : Type ℓ} where
  -- The loop on fuel.
  unfoldable pub next_free : ℕ → Map V → ℕ → ℕ
  next_free zero m id = id
  next_free (suc fuel) m id =
      let rest = next_free fuel m (add64 id 1) in if is_some (get m id) then rest else id

  -- The number of entries at the identifier or above it.
  above : Map V → ℕ → ℕ
  above [] id = 0
  above ((j, v) ∷ m) id = (if leb id j then 1 else 0) + above m id

  above-le-length : (m : Map V) (id : ℕ) → above m id ≤ length m
  unfolding above
  above-le-length [] id = omega arith
  above-le-length (e ∷ m) id = ground (arith, above-le-length m id)

  above_mono : (m : Map V) (id : ℕ) → above m (id + 1) ≤ above m id
  unfolding above
  above_mono [] id = omega arith
  above_mono (e ∷ m) id = ground (arith, above_mono m id)

  above-step : (m : Map V) (id : ℕ) → is_some (get m id) ≡ true → above m (id + 1) < above m id
  unfolding above get
  above-step [] id h = ground arith
  above-step (e ∷ m) id h = ground (arith, above-step m id, above_mono m id)

  next_free-get-above :
      (fuel : ℕ) (m : Map V) (id : ℕ)
      → above m id < fuel
      → id + above m id < u64_mod
      → get m (next_free fuel m id) ≡ none
  unfolding next_free
  next_free-get-above zero m id h k = absurd (omega arith)
  next_free-get-above (suc fuel) m id h k =
      ground (arith, above-step m id, add64-eq id 1, next_free-get-above fuel m (add64 id 1))

  next_free-ge_above :
      (fuel : ℕ) (m : Map V) (id : ℕ) → id + above m id < u64_mod → id ≤ next_free fuel m id
  unfolding next_free
  next_free-ge_above zero m id k = omega arith
  next_free-ge_above (suc fuel) m id k =
      ground (arith, above-step m id, add64-eq id 1, next_free-ge_above fuel m (add64 id 1))

  -- One more round than there are entries is enough: the loop ends at a free identifier.
  pub next_free-get :
      (m : Map V) (id : ℕ) → id + length m < u64_mod → get m (next_free (length m + 1) m id) ≡ none
  next_free-get m id h =
      next_free-get-above (length m + 1) m id (omega (arith, above-le-length m id))
        (omega (arith, above-le-length m id))

  pub next_free-ge :
      (m : Map V) (id : ℕ) → id + length m < u64_mod → id ≤ next_free (length m + 1) m id
  next_free-ge m id h = next_free-ge_above (length m + 1) m id (omega (arith, above-le-length m id))

  -- The identifier that follows a counter is above the counter and not in use, where the counter and
  -- the entries leave room below 2^64; the loop ends within one round more than there are entries.
  pub next_id_fresh :
      (m : Map V) (counter : ℕ)
      → counter + 1 + length m < u64_mod
      → (counter < next_free (length m + 1) m (add64 counter 1))
        × (get m (next_free (length m + 1) m (add64 counter 1)) ≡ none)
  next_id_fresh m counter h =
      let e = add64-eq counter 1 (omega arith) in
      (
        omega (arith, e, next_free-ge m (add64 counter 1) (rw e h)),
        next_free-get m (add64 counter 1) (rw e h),
      )
