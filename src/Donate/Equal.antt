-- ===== src/Donate/Equal.antt =====
-- An equal donation divides the amount: nothing is made and nothing is lost by rounding.
use sunshine_node.Prelude.{
  ℕ, suc, ◌+◌, ◌*◌, ◌%◌, ◌-◌, ◌≤◌, ◌<◌, ◌≡◌, inl, inr, sym, refl, List, [], ◌∷◌, ◌++◌, map, some,
  arith, length, leb, Bool-cases,
}
use sunshine_node.Word.{u32_mod, u128_mod, add128, sub128, add128-eq, sub128-eq}
use sunshine_node.Dispatch.{DispatchError, Result, ok, err, Result-cases}
use sunshine_node.Exec.{pure}
use sunshine_node.Util.Organization.{OrgRep}
use sunshine_node.Runtime.{Config, Runtime, on_ledger, Paid, Paid-last}
use sunshine_node.Org
use sunshine_node.Donate.{pay_each, calculate_uniform_amount, distribute, donate}

shift : (due n paid : ℕ) → paid + suc n * due < u128_mod → paid + due + n * due < u128_mod
shift due n paid h = omega arith

step : (due n paid : ℕ) → paid + suc n * due < u128_mod → paid + due < u128_mod
step due n paid h = omega arith

assoc : (due n paid : ℕ) → paid + suc n * due ≡ paid + due + n * due
assoc due n paid = omega arith

counted_eq : (n : ℕ) → n < u32_mod → n % u32_mod ≡ n
counted_eq n h = omega arith

no_err : {A : Type 0} {e : DispatchError} {a : A} → err e ≡ ok a → ⊥
no_err h = ground arith

module _ (T : Config) (sender amt : ℕ) where
  -- The sum that the loop returns, where it does not wrap.
  pay_each-sum :
      (due : ℕ) (group : List ℕ) (paid total : ℕ) (s : Runtime T.Ledger)
      → paid + length group * due < u128_mod
      → (pay_each T sender (λ _. pure due) group paid s).0 ≡ ok total
      → total ≡ paid + length group * due
  unfolding pay_each
  pay_each-sum due [] paid total s fits h = ground arith
  pay_each-sum due (acc ∷ rest) paid total s fits h =
      let sum = add128-eq paid due (step due (length rest) paid fits) in
      elim (Result-cases (on_ledger (T.transfer sender acc due) s).0) [
        | inl e ↦
            let ih =
              pay_each-sum due rest (add128 paid due) total
                (on_ledger (T.transfer sender acc due) s).1
                (rw sum (shift due (length rest) paid fits)) (rw e.1 at h) in
            rw ih (rw sum (sym (assoc due (length rest) paid)))
        | inr e ↦ absurd (no_err (rw e.1 at h))
      ]

  -- The loop pays the same to each member.
  pay_each-Paid :
      (due : ℕ) (group : List ℕ) (paid total : ℕ) (s : Runtime T.Ledger)
      → (pay_each T sender (λ _. pure due) group paid s).0 ≡ ok total
      → Paid T.transfer sender s.ledger
          (map (λ who. (who, due)) group)
          (pay_each T sender (λ _. pure due) group paid s).1.ledger
  unfolding pay_each
  pay_each-Paid due [] paid total s h = refl
  pay_each-Paid due (acc ∷ rest) paid total s h =
      elim (Result-cases (T.transfer sender acc due s.ledger).0) [
        | inl e ↦ rw e.1 (
          refl,
          pay_each-Paid due rest (add128 paid due) total (on_ledger (T.transfer sender acc due) s).1
              (rw e.1 at h),
        )
        | inr e ↦ absurd (no_err (rw e.1 at h))
      ]

  share :
      (n : ℕ)
      → n < u32_mod
      → n * T.mul_floor (T.from_rational_approximation 1 n) amt ≤ amt
      → n * calculate_uniform_amount T amt n ≤ amt
  unfolding calculate_uniform_amount
  share n counted floor = rw (calculate_uniform_amount, counted_eq n counted) floor

  -- What the reported pair is, from the sum that was paid.
  parts :
      (sum total : ℕ) {given rest : ℕ}
      → sum ≤ amt
      → amt < u128_mod
      → total ≡ 0 + sum
      → ◌≡◌ {A = Result (ℕ × ℕ)}
          (ok (sub128 amt (sub128 amt total), sub128 amt total))
          (ok (given, rest))
      → (given ≡ sum) × (given + rest ≡ amt) × (sub128 amt total ≡ rest)
  parts sum total le fits e h = ground (arith, sub128-eq amt total, sub128-eq amt (amt - sum))

  -- An equal donation that succeeds has paid each member the same and the remainder's recipient the
  -- rest, in accepted transfers from the sender and nothing else, and the two sums that it reports
  -- are those payments and that rest: together they are the whole amount. It asks that `Permill`
  -- rounds down (as many times its share as the group has members is at most the amount), that the
  -- group is counted by a u32, and that the amount is a u128.
  pub equal_donation_conserves :
      (org_id remainder_recipient given rest : ℕ) (s : Runtime T.Ledger) (group : List ℕ)
      → length group * T.mul_floor (T.from_rational_approximation 1 (length group)) amt ≤ amt
      → Org.get_group T.ordered_set s.org org_id ≡ some group
      → length group < u32_mod
      → amt < u128_mod
      → (donate T sender (OrgRep.equal org_id) remainder_recipient amt s).0 ≡ ok (given, rest)
      → let due = calculate_uniform_amount T amt (length group) in
        Paid T.transfer sender s.ledger
          (map (λ who. (who, due)) group ++ ((remainder_recipient, rest) ∷ []))
          (donate T sender (OrgRep.equal org_id) remainder_recipient amt s).1.ledger
        × (given ≡ length group * due)
        × (given + rest ≡ amt)
  unfolding donate distribute calculate_uniform_amount
  equal_donation_conserves org_id remainder_recipient given rest s group floor found counted fits
        h =
      let due = calculate_uniform_amount T amt (length group) in
      let paying = pay_each T sender (λ _. pure due) group 0 s in
      let fair = share (length group) counted floor in
      elim (Bool-cases (leb amt (T.free_balance s.ledger sender))) [
        | inl covered ↦ elim (Result-cases paying.0) [
          | inl (total, e) ↦
              elim (Result-cases
                (T.transfer sender remainder_recipient (sub128 amt total) paying.1.ledger).0) [
                  | inl k ↦
                      let sum = pay_each-sum due group 0 total s (omega (arith, fits, fair)) e in
                      let (gives, adds_up, leaves) =
                        parts (length group * due) total fair fits sum
                          (rw (covered, found, e, k.1) at h) in
                      (
                        rw (sym leaves, covered, found, e, k.1)
                            (Paid-last T.transfer sender (map (λ who. (who, due)) group)
                              remainder_recipient (sub128 amt total) s.ledger paying.1.ledger
                              (pay_each-Paid due group 0 total s e) k.1),
                        gives,
                        adds_up,
                      )
                  | inr k ↦ absurd (no_err (rw (covered, found, e, k.1) at h))
                ]
          | inr e ↦ absurd (no_err (rw (covered, found, e.1) at h))
        ]
        | inr short ↦ absurd (no_err (rw short at h))
      ]
