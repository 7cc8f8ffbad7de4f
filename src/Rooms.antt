-- ===== src/Rooms.antt =====
-- Group rooms (rooms.py, and the room commands of server.py).
pub mod Types
pub mod Owner
pub mod Member
pub mod Files
pub mod Handle
pub mod Command
pub mod Rights
pub mod Machine
pub mod Changes
pub mod Messages
pub mod Commands
pub mod Soundness
pub mod Refinement
pub mod Roster
pub mod Authority
pub mod Sync
pub mod Store
pub mod Reload
mod Examples
