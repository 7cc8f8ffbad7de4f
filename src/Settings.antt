-- ===== src/Settings.antt =====
-- The commands of the user interface that change the settings: server.py's `handle_command`.
pub mod Capacity
pub mod Config
pub mod Defaults
pub mod Given
pub mod Single
pub mod Reads
pub mod Reach
mod Examples
