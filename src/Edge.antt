-- ===== src/Edge.antt =====
-- The package edge: the vector space, its search, and what both stand on.
pub mod Heap
pub mod Queue
pub mod Analyzer
pub mod Query
pub mod Sharding
pub mod Space
pub mod Vectorstore
pub mod Storage
pub mod Collections
pub mod Spaces
