-- ===== src/Pairing.antt =====
-- Pairing two devices: src/pairing.rs.
pub mod Addresses
pub mod Service
pub mod Codes
