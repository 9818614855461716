-- ===== src/Util/Drip.antt =====
-- utils/src/drip.rs: payments at a rate.
use sunshine_node.Prelude.{ℕ}

pub record DripRate : Type 0 where
  pub amount : ℕ
  pub period_length : ℕ

pub record Drip : Type 0 where
  pub source : ℕ
  pub destination : ℕ
  pub rate : DripRate
