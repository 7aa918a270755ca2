-- ===== src/Cluster.antt =====
-- The machines of the program at work together.
pub mod Peer
pub mod Changes
pub mod Service
pub mod Serving
pub mod Requests
pub mod Outcomes
pub mod RoundTrip
