-- ===== src/Sync.antt =====
-- crates/cled-sync: items, duplicate detection and the rules of the sync engine.
pub mod Item
pub mod Recent
pub mod Engine
