-- ===== src/Ring.antt =====
-- The hash ring: the range that a server is responsible for, as text in the metadata, and the test
-- whether a key's hash falls into it.
pub mod Range
pub mod Circle
pub mod Metadata
pub mod Sorting
mod Addresses
pub mod Assignment
pub mod Coverage
pub mod Overlap
pub mod Routing
