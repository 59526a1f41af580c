-- ===== src/Network.antt =====
-- src/Network: the sessions on the wire, and the manager of the sessions.
pub mod Session
pub mod Framing
pub mod Manager
pub mod Sessions
pub mod Link
pub mod Closing
pub mod Delivery
pub mod Peer
