-- ===== src/Sync/Engine/Echo.antt =====
-- Echoes: what a local change turns out to be after an item was accepted.
use cled.Common.{
  Bool-cases, List, Option-cases, arith, false, inl, inr, nat_eq, none, some, true, ℕ, ◌==◌, ◌≡◌,
}
use cled.Clipboard.Content.{ClipboardContent}
use cled.Sync.Item.{ItemId, SystemTime, ClipboardItem, hash_of, is_intact, new_item}
use cled.Sync.Recent
use cled.Sync.Engine.{
  SyncEngine, echo, write, current_of, on_local_change, compare_current, on_remote_item,
  LocalChange, copy, on_write_failed, copied,
}

module _ (blake3 : List ℕ → ℕ) where
  -- What an accepted item leaves behind.
  pub record Accepted (s s' : SyncEngine) (item : ClipboardItem) (c : ClipboardContent)
      : Type 0 where
    pub pending : s'.pending_write ≡ some item
    pub content : c ≡ item.content
    pub intact : is_intact blake3 item ≡ true
    pub foreign : (item.origin == s.device) ≡ false
    pub fresh : (Recent.insert s.seen item.id).1 ≡ true
    pub seen : s'.seen ≡ (Recent.insert s.seen item.id).0
    pub device : s'.device ≡ s.device
    pub current : s'.current ≡ s.current

  pub on_remote_item-Accepted :
      (s s' : SyncEngine) (item : ClipboardItem) (c : ClipboardContent)
      → on_remote_item blake3 s item ≡ (s', write c)
      → Accepted s s' item c
  unfolding on_remote_item compare_current
  on_remote_item-Accepted s s' item c h = ground arith

  -- A write of a remote item comes back as its echo, whenever the change that is seen has the hash
  -- of what was written: it is reported with the original item, and nothing is left pending.
  pub on_local_change-on_remote_item :
      (s s' : SyncEngine) (item : ClipboardItem) (c seen : ClipboardContent) (id : ItemId)
      (now : SystemTime)
      → on_remote_item blake3 s item ≡ (s', write c)
      → hash_of blake3 seen ≡ hash_of blake3 c
      → on_local_change blake3 s' id now seen
        ≡ (record s' { pending_write = none; current = some (current_of item) }, echo item)
  unfolding on_local_change is_intact
  on_local_change-on_remote_item s s' item c seen id now h same =
      let a = on_remote_item-Accepted s s' item c h in
      ground (arith, a.pending, a.content, a.intact)

  -- What holds of each kind of local change, in the state after it.
  abbrev pub Reported : SyncEngine → ClipboardContent → SyncEngine × LocalChange → Type 0
  Reported s content (s', copied item) =
      (item.origin ≡ s.device)
      × (item.content ≡ content)
      × (is_intact blake3 item ≡ true)
      × (s'.seen ≡ (Recent.insert s.seen item.id).0)
      × (s'.current ≡ some (current_of item))
      × (s'.pending_write ≡ none)
  Reported s content (s', echo item) =
      (s.pending_write ≡ some item)
      × (item.content_hash ≡ hash_of blake3 content)
      × (s'.seen ≡ s.seen)
      × (s'.current ≡ some (current_of item))
      × (s'.pending_write ≡ none)

  copy-Reported :
      (s : SyncEngine) (id : ItemId) (now : SystemTime) (content : ClipboardContent)
      → Reported s content (copy blake3 (record s { pending_write = none }) id now content)
  unfolding copy new_item is_intact
  copy-Reported s id now content = ground arith

  -- Every local change is a copy, which is intact, of this device and noted as seen, or the echo of
  -- the pending item, whose hash it has. The expectation is gone after either.
  pub on_local_change-Reported :
      (s : SyncEngine) (id : ItemId) (now : SystemTime) (content : ClipboardContent)
      → Reported s content (on_local_change blake3 s id now content)
  unfolding on_local_change copy
  on_local_change-Reported s id now content = elim (Option-cases s.pending_write) [
    | inl quiet ↦ rw (quiet, on_local_change) (copy-Reported s id now content)
    | inr (item, waits) ↦ elim (Bool-cases (item.content_hash == hash_of blake3 content)) [
      | inl same ↦ rw (waits, same, on_local_change) (ground arith)
      | inr other ↦ rw (waits, other, on_local_change) (copy-Reported s id now content)
    ]
  ]

  -- Once a local change has come, or the write has failed, the next change is a copy, also if it
  -- holds what was to be written.
  on_local_change_after :
      (s : SyncEngine) (id id' : ItemId) (now now' : SystemTime) (first content : ClipboardContent)
      → ((on_local_change blake3 (on_local_change blake3 s id now first).0 id' now' content).1
          ≡ copied (new_item blake3 id' now' s.device content))
        × ((on_local_change blake3 (on_write_failed s) id' now' content).1
            ≡ copied (new_item blake3 id' now' s.device content))
  unfolding on_local_change copy on_write_failed
  on_local_change_after s id id' now now' first content = ground arith
