-- ===== src/Desktop/Clipboard.antt =====
-- apps/desktop/src-tauri/src/clipboard.rs: what the app does with a change of the clipboard, and what it
-- tells the user interface.
use cled.Common.{List, Option, [], if◌then◌else◌, nat_eq, none, some, ℕ, ◌==◌, ◌∷◌}
use cled.Clipboard.Content.{Chars, Image, ClipboardContent, text, image, new_text}
use cled.Clipboard.Snapshot.{Snapshot, empty, content, skipped, sensitive, too_large}
use cled.Sync.Item.{DeviceId, ItemId, SystemTime, ClipboardItem}
use cled.Sync.Item.Text.{UuidText}
use cled.Sync.Engine.{SyncEngine, LocalChange, copied, echo, on_local_change}
use cled.Lan.Error.{Result}
use cled.Lan.Wire.{Message}
use cled.Lan.Node.{Node, PeerStatus, peer_statuses}
use cled.Lan.Node.Handle.{broadcast}
use cled.Desktop.Answer.{Answer, done, failed}
use cled.Desktop.Preview.{data_url}

pub data Origin : Type 0 where
  this_device : Origin
  other_device : (device_id : Chars) (name : Option Chars) → Origin

pub record ItemInfo : Type 0 where
  pub id : Chars
  pub origin : Origin

pub data SkippedReason : Type 0 where
  skipped_sensitive : SkippedReason
  skipped_too_large : (width height : ℕ) → SkippedReason

pub data ClipboardPayload : Type 0 where
  shown_text : Chars → ClipboardPayload
  shown_image : (width height : ℕ) (preview_url : Option Chars) → ClipboardPayload
  shown_skipped : SkippedReason → ClipboardPayload

pub record ClipboardChanged : Type 0 where
  pub item : Option ItemInfo
  pub content : ClipboardPayload

-- The engine and the node, if it runs, which the clipboard watcher and the network share.
pub record Shared : Type 0 where
  pub engine : SyncEngine
  pub node : Option Node

-- The first of a list of peers with an id, `find` in `peer_name`.
abbrev name_in : List PeerStatus → DeviceId → Option Chars
name_in [] id = none
name_in (p ∷ ps) id = let later = name_in ps id in if p.device_id == id then some p.name else later

-- `peer_name` of sync.rs.
unfoldable pub peer_name : Node → DeviceId → Option Chars
peer_name n id = name_in (peer_statuses n) id

abbrev pub name_at : Option Node → DeviceId → Option Chars
name_at none id = none
name_at (some n) id = peer_name n id

-- `ItemInfo::new`.
unfoldable pub new_info : UuidText → ClipboardItem → DeviceId → Option Node → ItemInfo
new_info u item device node = record {
  id = u.display item.id;
  origin =
      if item.origin == device
      then this_device
      else other_device (u.display item.origin) (name_at node item.origin);
}

-- `from_snapshot`, with the encoder of thumbnails.
unfoldable pub from_snapshot : (Image → ℕ → ℕ → Option Chars) → Snapshot → Option ClipboardPayload
from_snapshot encoded (content (text t)) = some (shown_text t)
from_snapshot encoded (content (image i)) = some (shown_image i.width i.height (data_url encoded i))
from_snapshot encoded (skipped sensitive) = some (shown_skipped skipped_sensitive)
from_snapshot encoded (skipped (too_large width height)) =
    some (shown_skipped (skipped_too_large width height))
from_snapshot encoded empty = none

abbrev pub changed : Option ItemInfo → Option ClipboardPayload → Option ClipboardChanged
changed item none = none
changed item (some payload) = some (record { item = item; content = payload })

module _ (blake3 : List ℕ → ℕ) (u : UuidText) (to_stdvec : Message → Result (List ℕ))
    (write_png : Image → Result (List ℕ)) where
  abbrev sent_out : Option Node → ClipboardItem → Option Node
  sent_out none item = none
  sent_out (some n) item = some (broadcast to_stdvec write_png n item)

  -- What is done with what the engine makes of new content: a copy is broadcast, an echo is not.
  unfoldable pub report : Option Node → DeviceId → SyncEngine × LocalChange → Shared × ItemInfo
  report node device (engine, copied item) =
      (record { engine = engine; node = sent_out node item }, new_info u item device node)
  report node device (engine, echo item) =
      (record { engine = engine; node = node }, new_info u item device node)

  module _ (encoded : Image → ℕ → ℕ → Option Chars) where
    abbrev with_payload :
        Shared × ItemInfo → Option ClipboardPayload → Shared × Option ClipboardChanged
    with_payload (a, info) payload = (a, changed (some info) payload)

    -- `process_change`, with the id and the time of an item that is new.
    unfoldable pub process_change :
        Shared → ItemId → SystemTime → Snapshot → Shared × Option ClipboardChanged
    process_change a id now (content c) =
        with_payload (report a.node a.engine.device (on_local_change blake3 a.engine id now c))
          (from_snapshot encoded (content c))
    process_change a id now (skipped why) = (a, changed none (from_snapshot encoded (skipped why)))
    process_change a id now empty = (a, changed none (from_snapshot encoded empty))

-- What the clipboard service answers.
pub record ClipboardService : Type 0 where
  pub read : Answer Snapshot
  pub write : ClipboardContent → Answer (Unit {0})

-- The service, or why it could not start.
abbrev pub ClipboardState : Type 0
ClipboardState = Answer ClipboardService

-- `ClipboardState::write`.
unfoldable pub write_content : ClipboardState → ClipboardContent → Answer (Unit {0})
write_content (failed error) c = failed error
write_content (done service) c = service.write c

abbrev payload_of :
    (Image → ℕ → ℕ → Option Chars) → Answer Snapshot → Answer (Option ClipboardPayload)
payload_of encoded (failed error) = failed error
payload_of encoded (done snapshot) = done (from_snapshot encoded snapshot)

-- `read_clipboard`.
unfoldable read_clipboard :
    (Image → ℕ → ℕ → Option Chars) → ClipboardState → Answer (Option ClipboardPayload)
read_clipboard encoded (failed error) = failed error
read_clipboard encoded (done service) = payload_of encoded service.read

-- `write_clipboard`.
unfoldable write_clipboard : ClipboardState → Chars → Answer (Unit {0})
write_clipboard state t = write_content state (new_text t)
