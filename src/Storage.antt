-- ===== src/Storage.antt =====
-- The SQLite store of src/storage.rs, a module for each group of tables.
pub mod Records
pub mod Sql
pub mod Events
pub mod Invites
pub mod Accepted
pub mod Database
pub mod Messages
pub mod Peers
pub mod Outbox
pub mod Conversations
pub mod Devices
