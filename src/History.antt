-- ===== src/History.antt =====
-- history.py: the messages that the daemon keeps, and their file.
pub mod Types
pub mod Blob
pub mod Store
pub mod Page
pub mod Restart
pub mod Paging
pub mod Changes
pub mod Removals
pub mod Dedupe
mod Sample
mod Examples
