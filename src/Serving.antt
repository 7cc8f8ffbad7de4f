-- ===== src/Serving.antt =====
-- Files that are offered to peers (attachments.py).
pub mod Register
pub mod Window
pub mod Stream
pub mod Send
pub mod Offered
mod Examples
