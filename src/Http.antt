-- ===== src/Http.antt =====
-- http_api.py: the HTTP interface for other programs of the host.
pub mod Throttle
pub mod Window
pub mod Reader
mod Stream
pub mod Lines
pub mod Body
pub mod File
pub mod Api
pub mod Access
pub mod Limits
pub mod Runs
pub mod Workers
mod Examples
