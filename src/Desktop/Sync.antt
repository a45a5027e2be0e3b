-- ===== src/Desktop/Sync.antt =====
-- apps/desktop/src-tauri/src/sync.rs: what the app does with an event of the node, and the commands on it.
pub mod Echoes
pub mod Delivery
use cled.Common.{List, Option, [], if◌then◌else◌, nat_eq, none, not, some, ℕ, ◌++◌, ◌==◌, ◌∷◌}
use cled.Common.Utf8.{codes}
use cled.Clipboard.Content.{Chars, ClipboardContent, trim_end}
use cled.Sync.Item.Text.{UuidText, parse_id, trim}
use cled.Sync.Item.{DeviceId}
use cled.Sync.Engine.{SyncEngine, RemoteItem, write, ignore, on_remote_item, on_write_failed}
use cled.Lan.Code.{PairingCode, display}
use cled.Lan.Node.{
  Node, Event, peers_changed, item_received, paired, pairing_code_changed, removed_by, clock_skew,
}
use cled.Desktop.Answer.{Answer, done, failed}
use cled.Desktop.Clipboard.{Shared, ClipboardState, write_content}

-- What the user interface is told.
pub data Emitted : Type 0 where
  sync_changed : Emitted
  pairing_code_shown : Option Chars → Emitted
  now_paired : (name : Chars) → Emitted

-- The shared state with what was emitted, and the bodies of the notifications that were shown.
pub record App : Type 0 where
  pub shared : Shared
  pub emitted : List Emitted
  pub notices : List Chars

abbrev pub with_engine : App → SyncEngine → App
with_engine a engine = record a { shared = record a.shared { engine = engine } }

abbrev pub emit : App → Emitted → App
emit a e = record a { emitted = a.emitted ++ e ∷ [] }

-- Writing through the state of the clipboard, if it is there.
unfoldable pub write_through : Option ClipboardState → ClipboardContent → Answer (Unit {0})
write_through none c = failed (codes "clipboard not ready")
write_through (some state) c = write_content state c

-- A write that fails takes back what the engine expects.
unfoldable pub after_write : App → Answer (Unit {0}) → App
after_write a (done written) = a
after_write a (failed error) = with_engine a (on_write_failed a.shared.engine)

unfoldable pub apply_remote : App → Option ClipboardState → SyncEngine × RemoteItem → App
apply_remote a state (engine, write c) = after_write (with_engine a engine) (write_through state c)
apply_remote a state (engine, ignore why) = with_engine a engine

abbrev shown_code : Option PairingCode → Option Chars
shown_code none = none
shown_code (some code) = some (display code)

-- `handle_event`. A clock that differs is logged.
unfoldable pub handle_event : (List ℕ → ℕ) → App → Option ClipboardState → Event → App
handle_event blake3 a state (item_received item from) =
    apply_remote a state (on_remote_item blake3 a.shared.engine item)
handle_event blake3 a state peers_changed = emit a sync_changed
handle_event blake3 a state (paired device name) = emit (emit a (now_paired name)) sync_changed
handle_event blake3 a state (pairing_code_changed code) =
    emit a (pairing_code_shown (shown_code code))
handle_event blake3 a state (removed_by device name) =
    emit
      (record a {
        notices =
            a.notices
            ++ (name ++ codes " removed this device. They no longer share a clipboard.") ∷ [];
      })
      sync_changed
handle_event blake3 a state (clock_skew device skew_ms) = a

-- `host.split('.').next()`.
abbrev until_dot : Chars → Chars
until_dot [] = []
until_dot (c ∷ cs) = let rest = until_dot cs in if c == 46 then [] else c ∷ rest

abbrev or_cled : Chars → Chars
or_cled [] = codes "Cled device"
or_cled (c ∷ cs) = c ∷ cs

-- `device_name`, of the name of the host.
unfoldable device_name : Chars → Chars
device_name host = or_cled (trim (until_dot host))
