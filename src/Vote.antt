-- ===== src/Vote.antt =====
-- pallets/vote/src/lib.rs: votes of an organization, from the minting of signal to the outcome.
mod Base
mod Open
mod Ballot
mod Calls
pub mod Tally
pub mod Frame
pub mod Thresholds
unfoldable pub use Base.*
unfoldable pub use Open.*
unfoldable pub use Ballot.*
unfoldable pub use Calls.*
