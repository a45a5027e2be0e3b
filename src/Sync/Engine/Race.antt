-- ===== src/Sync/Engine/Race.antt =====
-- What the engine does between a write and its echo.
use cled.Common.{List, arith, false, nat_eq, true, ℕ, ◌==◌, ◌≡◌, ◌≢◌}
use cled.Clipboard.Content.{ClipboardContent}
use cled.Sync.Item.{ItemId, SystemTime, ClipboardItem, new_item, is_intact}
use cled.Sync.Recent
use cled.Sync.Engine.{
  SyncEngine, copied, write, copy, on_local_change, compare_current, on_remote_item,
}
use cled.Sync.Engine.Echo.{on_remote_item-Accepted}

module _ (blake3 : List ℕ → ℕ) where
  -- While the write of an item waits for its echo, the engine compares arrivals with what was on
  -- the clipboard before. So a late item that would have been written before, and has another hash,
  -- is written over the first, whichever of the two is newer; and the change that the first write
  -- causes is then reported as a new copy of this device.
  on_remote_item_overtaken :
      (s s' : SyncEngine) (first late : ClipboardItem) (c : ClipboardContent) (id : ItemId)
      (now : SystemTime)
      → on_remote_item blake3 s first ≡ (s', write c)
      → (compare_current blake3 s late).1 ≡ write late.content
      → (late.origin == s.device) ≡ false
      → is_intact blake3 late ≡ true
      → (Recent.insert s'.seen late.id).1 ≡ true
      → late.content_hash ≢ first.content_hash
      → ((on_remote_item blake3 s' late).1 ≡ write late.content)
        × ((on_local_change blake3 (on_remote_item blake3 s' late).0 id now c).1
            ≡ copied (new_item blake3 id now s.device c))
  unfolding on_remote_item compare_current on_local_change copy is_intact
  on_remote_item_overtaken s s' first late c id now h ready foreign intact fresh differ =
      let a = on_remote_item-Accepted blake3 s s' first c h in
      ground (arith, a.pending, a.content, a.intact, a.device, a.current)
