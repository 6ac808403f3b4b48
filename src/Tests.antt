-- ===== src/Tests.antt =====
-- Concrete instances of what the development takes as parameters, and its theorems at them.
pub mod Instances
mod InvertedTests
mod QueueTests
mod SpaceTests
mod QueryTests
mod SaveTests
mod CollectionsTests
mod TagsTests
mod HnswTests
mod HnswReached
