-- ===== src/Sync/Engine.antt =====
-- crates/cled-sync/src/engine.rs: what to broadcast and what to apply, on one device.
pub mod Echo
pub mod Duplicates
pub mod Newest
pub mod Race
pub mod Converge
use cled.Common.{
  nat_eq, Bool, List, Option, if◌then◌else◌, ltb, none, not, some, ℕ, ◌&&◌, ◌==◌, ◌||◌,
}
use cled.Clipboard.Content.{ClipboardContent}
use cled.Sync.Item.{
  DeviceId, ItemId, ContentHash, SystemTime, ClipboardItem, hash_of, new_item, is_intact,
}
use cled.Sync.Recent.{RecentSet}
use cled.Sync.Recent

pub data LocalChange : Type 0 where
  copied echo : ClipboardItem → LocalChange

pub data Ignored : Type 0 where
  own_item duplicate corrupt already_on_clipboard stale : Ignored

pub data RemoteItem : Type 0 where
  write : ClipboardContent → RemoteItem
  ignore : Ignored → RemoteItem

pub record Current : Type 0 where
  pub hash : ContentHash
  pub created_at : SystemTime
  pub id : ItemId

-- `Current::of`.
abbrev pub current_of : ClipboardItem → Current
current_of item = record { hash = item.content_hash; created_at = item.created_at; id = item.id }

-- The order of the pairs (creation time, id).
abbrev pub newer : SystemTime → ItemId → SystemTime → ItemId → Bool
newer t i u j = ltb u t || (t == u && ltb j i)

unfoldable pub is_newer_than : Current → ClipboardItem → Bool
is_newer_than c item = newer c.created_at c.id item.created_at item.id

pub record SyncEngine : Type 0 where
  pub device : DeviceId
  pub seen : RecentSet ItemId
  pub pending_write : Option ClipboardItem
  pub current : Option Current

abbrev pub recent_items : ℕ
recent_items = 1000

-- `SyncEngine::new`.
unfoldable pub new_engine : DeviceId → SyncEngine
new_engine device = record {
  device = device;
  seen = Recent.new recent_items;
  pending_write = none;
  current = none;
}

-- `on_write_failed`.
unfoldable pub on_write_failed : SyncEngine → SyncEngine
on_write_failed s = record s { pending_write = none }

module _ (blake3 : List ℕ → ℕ) where
  -- A copy made on this device: the end of `on_local_change`.
  unfoldable pub copy :
      SyncEngine → ItemId → SystemTime → ClipboardContent → SyncEngine × LocalChange
  copy s id now content =
      let item = new_item blake3 id now s.device content in
      (
        record s { seen = (Recent.insert s.seen item.id).0; current = some (current_of item) },
        copied item,
      )

  -- The expectation is taken before it is compared, so it is gone in each branch.
  unfoldable pub on_local_change :
      SyncEngine → ItemId → SystemTime → ClipboardContent → SyncEngine × LocalChange
  on_local_change s id now content =
      let taken : SyncEngine = record s { pending_write = none } in
      elim s.pending_write [
        | none ↦ copy taken id now content
        | some pending ↦
            if pending.content_hash == hash_of blake3 content
            then (record taken { current = some (current_of pending) }, echo pending)
            else copy taken id now content
      ]

  -- `on_remote_item` from its test of what is on the clipboard.
  unfoldable pub compare_current : SyncEngine → ClipboardItem → SyncEngine × RemoteItem
  compare_current s item =
      let accepted : SyncEngine = record s { pending_write = some item } in
      elim s.current [
        | none ↦ (accepted, write item.content)
        | some current ↦
            if is_newer_than current item
            then (s, ignore stale)
            else if current.hash == item.content_hash
            then (record s { current = some (current_of item) }, ignore already_on_clipboard)
            else (accepted, write item.content)
      ]

  unfoldable pub on_remote_item : SyncEngine → ClipboardItem → SyncEngine × RemoteItem
  on_remote_item s item =
      if item.origin == s.device
      then (s, ignore own_item)
      else if not (is_intact blake3 item)
      then (s, ignore corrupt)
      else let (seen, fresh) = Recent.insert s.seen item.id in
        if not fresh
        then (record s { seen = seen }, ignore duplicate)
        else compare_current (record s { seen = seen }) item
