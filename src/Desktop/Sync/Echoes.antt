-- ===== src/Desktop/Sync/Echoes.antt =====
-- An item that is received and written, of apps/desktop/src-tauri/src/sync.rs and clipboard.rs, as it comes
-- back through the watcher of the clipboard.
use cled.Common.{List, Option, false, nat_eq, none, refl, some, ℕ, ◌==◌, ◌≡◌}
use cled.Clipboard.Content.{Chars, Image, ClipboardContent}
use cled.Clipboard.Snapshot.{content}
use cled.Sync.Item.{ItemId, SystemTime, ClipboardItem, hash_of}
use cled.Sync.Item.Text.{UuidText}
use cled.Sync.Engine.{SyncEngine, write, on_remote_item, current_of, echo}
use cled.Sync.Engine.Echo.{on_local_change-on_remote_item, on_remote_item-Accepted}
use cled.Lan.Error.{Result}
use cled.Lan.Wire.{Message}
use cled.Lan.Node.{item_received}
use cled.Desktop.Answer.{done}
use cled.Desktop.Clipboard.{
  ClipboardState, new_info, other_device, name_at, report, process_change, changed, from_snapshot,
  ItemInfo,
}
use cled.Desktop.Sync.{App, with_engine, write_through, after_write, apply_remote, handle_event}

-- The state after an item was written.
handle_event_written :
    (blake3 : List ℕ → ℕ) (a : App) (state : Option ClipboardState) (s : SyncEngine)
    (item : ClipboardItem) (from : ℕ) (c : ClipboardContent)
    → on_remote_item blake3 a.shared.engine item ≡ (s, write c)
    → write_through state c ≡ done tt
    → handle_event blake3 a state (item_received item from) ≡ with_engine a s
unfolding handle_event apply_remote after_write
handle_event_written blake3 a state s item from c h wrote = rw (handle_event, h, wrote) refl

-- What is shown of content that came from another device.
abbrev pub received_info : UuidText → App → ClipboardItem → ItemInfo
received_info u a item = record {
  id = u.display item.id;
  origin = other_device (u.display item.origin) (name_at a.shared.node item.origin);
}

module _ (blake3 : List ℕ → ℕ) (u : UuidText) (to_stdvec : Message → Result (List ℕ))
    (write_png : Image → Result (List ℕ)) (encoded : Image → ℕ → ℕ → Option Chars) where
  -- What an echo is reported as.
  report_foreign :
      (a : App) (s s' : SyncEngine) (item : ClipboardItem)
      → (item.origin == s.device) ≡ false
      → report blake3 u to_stdvec write_png a.shared.node s.device (s', echo item)
        ≡ (record { engine = s'; node = a.shared.node }, received_info u a item)
  unfolding report new_info
  report_foreign a s s' item h = rw (report, new_info, h) refl

  -- When a received item was written to the clipboard, and the watcher then reads content with the same
  -- content hash, the user interface is told of it as the item of the device that it came from, with that
  -- device's name if it is paired; nothing is sent, and nothing is left pending.
  pub process_change-handle_event :
      (a : App) (state : Option ClipboardState) (s : SyncEngine) (item : ClipboardItem) (from : ℕ)
      (c seen : ClipboardContent) (id : ItemId) (now : SystemTime)
      → on_remote_item blake3 a.shared.engine item ≡ (s, write c)
      → write_through state c ≡ done tt
      → hash_of blake3 seen ≡ hash_of blake3 c
      → process_change blake3 u to_stdvec write_png encoded
          (handle_event blake3 a state (item_received item from)).shared
          id
          now
          (content seen)
        ≡ (
          record {
            engine = record s { pending_write = none; current = some (current_of item) };
            node = a.shared.node;
          },
          changed (some (received_info u a item)) (from_snapshot encoded (content seen)),
        )
  unfolding process_change
  process_change-handle_event a state s item from c seen id now h wrote same =
      let accepted = on_remote_item-Accepted blake3 a.shared.engine s item c h in
      let foreign : (item.origin == s.device) ≡ false = rw accepted.device accepted.foreign in
      rw (handle_event_written blake3 a state s item from c h wrote) (
        rw
          (
            process_change,
            on_local_change-on_remote_item blake3 a.shared.engine s item c seen id now h same,
          )
          (rw
            (report_foreign a s
              (record s { pending_write = none; current = some (current_of item) }) item foreign)
            refl))
