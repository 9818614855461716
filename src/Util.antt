-- ===== src/Util.antt =====
-- The data types of the `util` crate (utils/src) and their methods.
pub mod Organization
pub mod Share
pub mod Vote
pub mod Bank
pub mod Bounty
pub mod Kickback
pub mod Drip
pub mod Recovery
pub mod Insurance
pub mod Moloch
pub mod Grant
pub mod Meta
pub mod Court
pub mod Rank
