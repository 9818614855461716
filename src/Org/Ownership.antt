-- ===== src/Org/Ownership.antt =====
-- The invariant of the org pallet: the shares of an organization are those that its members hold.
pub mod Invariant
pub mod Issue
pub mod Burn
pub mod Batch
pub mod Founding
pub mod Locks
pub mod Wrapping
pub mod Reach
