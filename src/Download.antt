-- ===== src/Download.antt =====
-- The recipient's side of a file transfer in attachments.py: the disk limits, the table of active
-- downloads, and the calls that begin, feed and end one.
pub mod Types
pub mod Limits
pub mod Reserve
pub mod Begin
pub mod Chunk
pub mod Finish
pub mod BeginCases
pub mod ChunkCases
pub mod FinishCases
pub mod Run
pub mod Bounds
pub mod Ceiling
pub mod Slots
pub mod Budget
pub mod Frames
pub mod Acceptance
pub mod Outcomes
pub mod Stream
pub mod Clash
pub mod Transfer
mod Examples
