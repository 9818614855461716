-- ===== src/Runtime.antt =====
-- The state that the pallets share (bin/runtime/src/lib.rs puts the pallets together), and what the
-- pallets take from outside the repository.
mod Events
mod Stores
mod Host
mod Local
mod Currency
mod Payments
pub use Events.*
pub use Stores.*
pub use Host.*
pub use Local.*
pub use Currency.*
pub use Payments.*
