-- ===== src/Udp.antt =====
-- Signed friend packets over UDP (server.py).
pub mod Blob
pub mod Seen
pub mod Verify
pub mod Replay
mod Examples
