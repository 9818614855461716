-- ===== src/Vote/Tally.antt =====
-- The tallies of a vote as sums over the votes that are logged for it, and the invariant of the
-- vote pallet that the stored states hold exactly these sums.
pub mod Sums
pub mod Minting
pub mod Invariant
pub mod Preserve
pub mod Electorate
pub mod Opening
pub mod Voters
pub mod Decision
pub mod Updates
pub mod Reach
