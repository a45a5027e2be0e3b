-- ===== src/Tests.antt =====
-- The theorems at concrete inputs.
mod Sync
mod Lan
mod Clipboard
mod Channel
mod Node
mod Desktop
mod App
mod Saved
mod Session
mod Pairing
mod Platform
