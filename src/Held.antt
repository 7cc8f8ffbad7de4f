-- ===== src/Held.antt =====
-- Friend requests that wait for the user's answer (server.py).
pub mod Queue
pub mod Bounds
pub mod Order
mod Examples
