-- ===== src/Ratchet.antt =====
-- The ratchet of src/lib.rs.
pub mod Stateful
pub mod State
pub mod Receive
pub mod Keeps
pub mod Maps
pub mod Bounds
pub mod Chains
pub mod Delivery
pub mod Opening
pub mod AnyOrder
pub mod Replay
pub mod Forgery
pub mod Agreement
pub mod Rotation
pub mod Exchange
pub mod Gap
