-- ===== src/Clipboard.antt =====
-- crates/cled-clipboard: clipboard content, change detection and the clipboard thread.
pub mod Content
pub mod Error
pub mod Snapshot
pub mod Service
pub mod Holder
pub mod Reading
pub mod Platform
