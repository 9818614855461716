-- ===== src/Bounty.antt =====
-- pallets/bounty/src/lib.rs: bounties that anyone posts and contributes to; the depositer approves
-- submissions, which are paid from the account of the bounty.
mod Base
mod Calls
pub mod Solvency
pub mod Reach
unfoldable pub use Base.*
unfoldable pub use Calls.*
