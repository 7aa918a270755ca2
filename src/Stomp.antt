-- ===== src/Stomp.antt =====
-- stomp.js, the STOMP client for browsers in the broker's distribution.
pub mod Frame
pub mod Parse
pub mod Client
pub mod Session
pub mod Pieces
pub mod Lines
pub mod Headers
pub mod Marshalled
pub mod RoundTrip
