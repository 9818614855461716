-- ===== src/Bank.antt =====
-- pallets/bank/src/lib.rs: the bank accounts of organizations and the spends from them.
mod Base
mod Spend
mod Calls
pub mod Moves
pub mod Progress
pub mod Life
pub mod Payment
pub mod Finalize
unfoldable pub use Base.*
unfoldable pub use Spend.*
unfoldable pub use Calls.*
