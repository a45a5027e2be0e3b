-- ===== src/Desktop.antt =====
-- apps/desktop/src-tauri: the desktop app around the clipboard and the node.
pub mod Answer
pub mod Tunnel
pub mod Settings
pub mod Relay
pub mod Commands
pub mod Auth
pub mod Preview
pub mod Device
pub mod Clipboard
pub mod Sync
