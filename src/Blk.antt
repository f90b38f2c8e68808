-- ===== src/Blk.antt =====
-- The BLK protocol: Pixie-XC/Protocols/BLK.
pub mod Message
pub mod Parser
pub mod Socket
pub mod Client
pub mod Handler
pub mod Journey
