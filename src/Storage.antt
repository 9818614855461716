-- ===== src/Storage.antt =====
-- The storage items of frame_support, as the pallets use them.
pub mod Map
pub mod DoubleMap
pub mod Fresh
