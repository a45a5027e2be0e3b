-- ===== src/Lan.antt =====
-- crates/cled-lan: paired devices, their messages and the sync node.
pub mod Error
pub mod Addr
pub mod Wire
pub mod Peers
pub mod Merge
pub mod Keys
pub mod Noise
pub mod Code
pub mod Discovery
pub mod Node
