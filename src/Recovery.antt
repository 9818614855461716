-- ===== src/Recovery.antt =====
-- pallets/recovery/src/lib.rs: the keepers of the shares of a secret commit to the hashes of their
-- shares, round by round, and reveal the shares when the secret is to be recovered.
mod Base
mod Calls
pub mod Histories
pub mod Keeping
pub mod Reach
unfoldable pub use Base.*
unfoldable pub use Calls.*
