-- ===== src/Sync/Engine/Newest.antt =====
-- Newest wins: what is on the clipboard after items have come and their echoes been seen.
use cled.Common.{List, Option, arith, false, if◌then◌else◌, nat_eq, none, some, true, ℕ, ◌==◌, ◌≡◌}
use cled.Sync.Item.{ItemId, SystemTime, ClipboardItem, is_intact}
use cled.Sync.Recent
use cled.Sync.Engine.{
  SyncEngine, Current, RemoteItem, write, ignore, current_of, is_newer_than, on_local_change,
  compare_current, on_remote_item,
}

-- The newer of what is on the clipboard and an item.
pub newest : Option Current → ClipboardItem → Option Current
unfolding is_newer_than
newest none item = some (current_of item)
newest (some c) item = if is_newer_than c item then some c else some (current_of item)

-- Two items of one id are one item.
pub newest_comm :
    (c : Option Current) (i j : ClipboardItem)
    → (i.id ≡ j.id → i ≡ j)
    → newest (newest c i) j ≡ newest (newest c j) i
unfolding newest is_newer_than
newest_comm none i j one = ground arith
newest_comm (some c) i j one = ground arith

module _ (blake3 : List ℕ → ℕ) (id : ItemId) (now : SystemTime) where
  -- An item comes, and if it is to be written, the write shows up on the clipboard.
  unfoldable pub deliver : SyncEngine → ClipboardItem → SyncEngine
  deliver s item = settle (on_remote_item blake3 s item)
    where
      settle : SyncEngine × RemoteItem → SyncEngine
      settle (s', write c) = (on_local_change blake3 s' id now c).0
      settle (s', ignore _) = s'

  pub deliver-current :
      (s : SyncEngine) (item : ClipboardItem)
      → (item.origin == s.device) ≡ false
      → is_intact blake3 item ≡ true
      → (Recent.insert s.seen item.id).1 ≡ true
      → (deliver s item).current ≡ newest s.current item
  unfolding deliver newest on_remote_item compare_current on_local_change is_newer_than is_intact
  deliver-current s item foreign intact fresh = ground arith

  pub deliver-seen :
      (s : SyncEngine) (item : ClipboardItem)
      → (item.origin == s.device) ≡ false
      → is_intact blake3 item ≡ true
      → (Recent.insert s.seen item.id).1 ≡ true
      → ((deliver s item).seen ≡ (Recent.insert s.seen item.id).0)
        × ((deliver s item).device ≡ s.device)
  unfolding deliver on_remote_item compare_current on_local_change is_intact
  deliver-seen s item foreign intact fresh = ground arith
