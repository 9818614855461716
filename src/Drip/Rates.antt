-- ===== src/Drip/Rates.antt =====
-- The first payment block that start_drip reports.
use sunshine_node.Prelude.{
  ℕ, ◌+◌, ◌%◌, ◌≤◌, ◌<◌, ◌≡◌, ◌⊎◌, inl, inr, some, arith, ltb, ◌==◌, false, refl, zero, suc,
}
use Prim.Native.Nat.{◌*◌, ◌/◌}
use native.Mathlib.Nat.{div-add-mod', mod-lt}
use sunshine_node.Word.{u32_mod, add32, sub32}
use sunshine_node.Drip.{first_next_block_mod_period_is_zero}

no_wrap :
    (now period a r : ℕ)
    → now ≡ a + r
    → r < period
    → now + period < u32_mod
    → add32 now (sub32 period a) ≡ period + r
unfolding add32 sub32
no_wrap now period a r e small fits = omega arith

in_range : (a : ℕ) → a < u32_mod → a % u32_mod ≡ a
in_range a h = omega arith

-- A block is in the first period, or at least one period and its remainder.
period_passed :
    (q now period : ℕ)
    → now % period < period
    → q * period + now % period ≡ now
    → (now < period) ⊎ (period + now % period ≤ now)
period_passed zero now period small split = inl (omega (arith, split))
period_passed (suc q) now period small split = inr (omega (arith, split))

-- For a period that is not zero, and as long as the sum of the block and the period is a u32, the
-- reported block is one period and the remainder of the present block by the period: after the first
-- period it is the present block or an earlier one.
pub first_block-remainder :
    (now period : ℕ)
    → 0 < period
    → now + period < u32_mod
    → (first_next_block_mod_period_is_zero now period ≡ some (period + now % period))
      × ((now < period) ⊎ (period + now % period ≤ now))
unfolding first_next_block_mod_period_is_zero
first_block-remainder now period positive fits =
    let whole = now / period * period in
    let split = div-add-mod' now period in
    let small = mod-lt now positive in
    let below : whole % u32_mod ≡ whole = in_range whole (omega (arith, split)) in
    let known : (period == 0) ≡ false = ground arith in
    let past : ltb now whole ≡ false = ground (arith, split) in
    let sum = no_wrap now period whole (now % period) (omega (arith, split)) small fits in
    (rw (known, below, past, sum) refl, period_passed (now / period) now period small split)
