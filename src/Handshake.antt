-- ===== src/Handshake.antt =====
-- How two sides of src/lib.rs come to a session.
pub mod Keys
pub mod Parties
pub mod Prekeys
pub mod FirstMessage
pub mod Exchanged
pub mod Deliveries
pub mod States
pub mod Stored
