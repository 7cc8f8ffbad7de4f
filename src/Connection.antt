-- ===== src/Connection.antt =====
-- What a connection brings before and after its identity is proved (server.py).
pub mod Lines
pub mod Inbound
pub mod Chunks
pub mod Proof
pub mod Active
pub mod Queue
pub mod Outbound
pub mod Whole
pub mod Dial
pub mod Retry
mod Examples
