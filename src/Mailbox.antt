-- ===== src/Mailbox.antt =====
-- The offline mailbox of src/mailbox_storage.rs.
pub mod Store
pub mod Requests
pub mod Bounds
pub mod Settled
pub mod Served
