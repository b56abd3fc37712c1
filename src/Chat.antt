-- ===== src/Chat.antt =====
-- The chats of src/main.rs and src/pairing.rs.
pub mod Names
pub mod Records
pub mod Peers
pub mod Entries
pub mod Frames
pub mod Loop
pub mod Keeps
pub mod Once
pub mod Prepared
pub mod Delivery
pub mod Resending
