-- ===== src/Broker/Mwcmqs.antt =====
-- The MWCMQS listener and publisher of src/broker/mwcmq.rs.
pub mod Reply
pub mod Message
pub mod Poll
pub mod Honest
pub mod Settled
pub mod Stops
pub mod Escapes
pub mod Listed
pub mod Post
pub mod Posted
pub mod Relayed
mod PostTests
mod Tests
