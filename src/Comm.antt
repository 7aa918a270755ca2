-- ===== src/Comm.antt =====
-- CommModule: how a server answers the messages of clients and of the configuration service, and
-- how messages are secured on the way.
pub mod Serve
pub mod Admin
pub mod Modular
pub mod KeyExchange
pub mod Secure
