-- ===== src/Saving.antt =====
-- The files that the user saves: attachments.py and server.py.
pub mod Name
pub mod Safe
pub mod Desk
pub mod Asked
pub mod Marked
mod Examples
