-- ===== src/Grant/Polling.antt =====
-- When the hook of the grant pallet polls what is under review.
use sunshine_node.Prelude.{ℕ, ◌%◌, ◌<◌, ◌≡◌, refl, false, some, arith, ◌==◌}
use native.Mathlib.Nat.{mod-eq_of_lt}
use sunshine_node.Runtime.{Config}
use sunshine_node.Grant.Base.{State, GrantTrait}
use sunshine_node.Grant.Finalize.{finalize_applications, finalize_milestones, on_finalize}

remainder : (frequency now : ℕ) → 0 < frequency → frequency < now → (frequency % now == 0) ≡ false
remainder frequency now positive past = rw (mod-eq_of_lt past) (ground arith)

-- Where both polling frequencies are positive, the hook leaves the whole state as it is in every block
-- whose number is above both: it approves and rejects nothing then.
pub late_finalize_idle :
    (T : Config) (K : GrantTrait) (s : State T.Ledger)
    → 0 < s.store.application_poll_frequency
    → s.store.application_poll_frequency < s.base.block_number
    → 0 < s.store.milestone_poll_frequency
    → s.store.milestone_poll_frequency < s.base.block_number
    → on_finalize T K s ≡ some s
unfolding on_finalize finalize_applications finalize_milestones
late_finalize_idle T K s p1 h1 p2 h2 =
    let begun : (s.base.block_number == 0) ≡ false = ground arith in
    rw
      (
        begun,
        remainder s.store.application_poll_frequency s.base.block_number p1 h1,
        begun,
        remainder s.store.milestone_poll_frequency s.base.block_number p2 h2,
      )
      refl
