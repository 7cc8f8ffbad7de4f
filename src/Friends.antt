-- ===== src/Friends.antt =====
-- The friends, the packets and messages that concern them, and the commands: server.py.
pub mod Types
pub mod Ledger
pub mod Peers
pub mod Udp
pub mod Incoming
pub mod Send
pub mod Command
pub mod Lists
pub mod Moves
pub mod Steps
pub mod Events
pub mod Consent
pub mod Mirror
pub mod Foothold
pub mod Sample
mod Examples
