-- ===== src/Inverted.antt =====
-- The package pkg/inverted: the index from metadata values to node ids, and filters over it.
pub mod Value
pub mod Filter
pub mod Compare
pub mod Roaring
pub mod Index
pub mod Search
pub mod Codec
