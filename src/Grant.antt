-- ===== src/Grant.antt =====
-- pallets/grant/src/lib.rs: foundations that fund grants, the applications for them, and the
-- milestones on which they are paid.
mod Base
mod Calls
mod Milestones
mod Finalize
pub mod Awards
pub mod Applied
pub mod Delivered
pub mod Polled
pub mod Reach
pub mod Paid
pub mod Polling
unfoldable pub use Base.*
unfoldable pub use Calls.*
unfoldable pub use Milestones.*
unfoldable pub use Finalize.*
