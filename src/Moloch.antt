-- ===== src/Moloch.antt =====
-- pallets/moloch/src/lib.rs: organizations with one bank, whose members pay a tribute to join and
-- take their portion of the bank when they leave.
mod Base
pub mod Spend
pub mod Membership
mod Calls
pub mod Ragequit
pub mod Payment
unfoldable pub use Base.*
unfoldable pub use Calls.*
