-- ===== src/Org.antt =====
-- pallets/org/src/lib.rs: organizations, their members and their shares.
mod Base
mod Issuance
mod Register
mod Calls
pub mod Holdings
pub mod Ownership
pub mod Removal
unfoldable pub use Base.*
unfoldable pub use Issuance.*
unfoldable pub use Register.*
unfoldable pub use Calls.*
