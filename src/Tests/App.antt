-- ===== src/Tests/App.antt =====
-- The theorems of the app's way from clipboard to clipboard, at concrete inputs.
use cled.Common.{
  List, Option, [], arith, length, nat_eq, none, refl, some, subst, true, ℕ, ◌∷◌, ◌≡◌,
}
use cled.Clipboard.Snapshot.{content}
use cled.Sync.Item.{ClipboardItem, new_item, is_intact, hash_of, hashed_bytes}
use cled.Sync.Engine.{
  SyncEngine, copied, write, on_local_change, on_remote_item, compare_current, current_of, copy,
}
use cled.Lan.Error.{ok_injective, Result, ok, err, noise}
use cled.Lan.Wire.{
  hello, ping, bye, roster, wire_image, Message, WireItem, WireContent, wire_text, item, encode,
  decode, from_item, into_item, to_wire, to_ms,
}
use cled.Lan.Wire.Items.{arrived}
use cled.Lan.Node.{Node, message, emit, item_received}
use cled.Lan.Node.Session.{receive}
use cled.Desktop.Answer.{done}
use cled.Desktop.Clipboard.{ClipboardState, process_change, from_snapshot, changed, write_content}
use cled.Desktop.Sync.{App, handle_event, write_through}
use cled.Desktop.Sync.Echoes.{received_info, process_change-handle_event}
use cled.Desktop.Sync.Delivery.{Welcomes, copy_delivered}
use cled.Tests.Channel.{keep_size, read_size, reads_all}
use cled.Tests.Desktop.{uuid, small_node}
use cled.Common.Utf8.{as_bytes, encode_utf8}
use cled.Clipboard.Content.{
  Chars, Image, ClipboardContent, text, normalize_line_endings, replace_crlf, replace_cr,
  identity_text, trim_end, is_whitespace,
}
use cled.Sync.Recent

abbrev blake3 : List ℕ → ℕ
blake3 = length

abbrev hi : ClipboardContent
hi = text (b'h' ∷ b'i' ∷ [])

abbrev idle_engine : ℕ → SyncEngine
idle_engine device = record {
  device = device;
  seen = record { order = []; members = []; capacity = 1000 };
  pending_write = none;
  current = none;
}

abbrev from_two : ClipboardItem
from_two = record { id = 7; origin = 2; content_hash = 12; created_at = 50; content = hi }

abbrev note_of : SyncEngine → SyncEngine
note_of s = record s { seen = record { order = 7 ∷ []; members = 7 ∷ []; capacity = 1000 } }

abbrev waiting : SyncEngine
waiting = record (note_of (idle_engine 1)) { pending_write = some from_two }

abbrev app : App
app = record {
  shared = record { engine = idle_engine 1; node = some small_node };
  emitted = [];
  notices = [];
}

abbrev clipboard : Option ClipboardState
clipboard = some (done (record { read = done (content hi); write = λ c. done tt }))

abbrev no_png : Image → ℕ → ℕ → Option Chars
no_png i width height = none

-- A codec for items of text.
abbrev put : WireItem → WireContent → Result (List ℕ)
put w (wire_text t) = ok (w.id ∷ w.origin ∷ w.created_at_ms ∷ w.content_hash ∷ t)
put w (wire_image width height png) = err noise

abbrev to_stdvec : Message → Result (List ℕ)
to_stdvec (item w) = put w w.content
to_stdvec _ = err noise

abbrev from_bytes : List ℕ → Result Message
from_bytes (id ∷ origin ∷ at ∷ hash ∷ t) = ok (
    item (record {
      id = id;
      origin = origin;
      created_at_ms = at;
      content_hash = hash;
      content = wire_text t;
    }))
from_bytes _ = err noise

from_bytes-put :
    (w : WireItem) (c : WireContent) (bytes : List ℕ)
    → put w c ≡ ok bytes
    → from_bytes bytes ≡ ok (item (record w { content = c }))
from_bytes-put w (wire_text t) bytes h =
    subst (λ b. from_bytes b ≡ ok (item (record w { content = wire_text t }))) (ok_injective h) refl
from_bytes-put w (wire_image width height png) bytes h = ground arith

parses : (m : Message) (bytes : List ℕ) → to_stdvec m ≡ ok bytes → from_bytes bytes ≡ ok m
parses (item w) bytes h = from_bytes-put w w.content bytes h
parses (hello g) bytes h = ground arith
parses ping bytes h = ground arith
parses (bye r) bytes h = ground arith
parses (roster r) bytes h = ground arith

program : Unit {0}
unfolding on_remote_item compare_current on_local_change copy is_intact hash_of hashed_bytes
    identity_text trim_end is_whitespace as_bytes encode_utf8 Recent.insert Recent.new
    Recent.forget_oldest Recent.remove new_item write_through write_content normalize_line_endings
    replace_crlf replace_cr from_item to_wire to_ms encode
program = tt

accepts : on_remote_item blake3 (idle_engine 1) from_two ≡ (waiting, write hi)
unfolding program
accepts = refl

written : write_through clipboard hi ≡ done tt
unfolding program
written = refl

process_change-handle_event_example :
    process_change blake3 uuid to_stdvec keep_size no_png
      (handle_event blake3 app clipboard (item_received from_two 2)).shared
      8
      60
      (content hi)
    ≡ (
      record {
        engine = record waiting { pending_write = none; current = some (current_of from_two) };
        node = some small_node;
      },
      changed (some (received_info uuid app from_two)) (from_snapshot no_png (content hi)),
    )
process_change-handle_event_example =
    process_change-handle_event blake3 uuid to_stdvec keep_size no_png app clipboard waiting
      from_two 2 hi hi 8 60 accepts written refl

abbrev mine : ClipboardItem
mine = record { id = 7; origin = 1; content_hash = 12; created_at = 50; content = hi }

abbrev after_copy : SyncEngine
after_copy = record (note_of (idle_engine 1)) { current = some (current_of mine) }

abbrev wire_mine : WireItem
wire_mine = record {
  id = 7;
  origin = 1;
  created_at_ms = 0;
  content_hash = 12;
  content = wire_text (b'h' ∷ b'i' ∷ []);
}

abbrev bytes_mine : List ℕ
bytes_mine = 7 ∷ 1 ∷ 0 ∷ 12 ∷ b'h' ∷ b'i' ∷ []

made : normalize_line_endings (b'h' ∷ b'i' ∷ []) ≡ b'h' ∷ b'i' ∷ []
unfolding program
made = refl

copies : on_local_change blake3 (idle_engine 1) 7 50 hi ≡ (after_copy, copied mine)
unfolding program
copies = refl

sendable : from_item keep_size mine ≡ ok wire_mine
unfolding program
sendable = refl

encoded_mine : encode to_stdvec (item wire_mine) ≡ ok bytes_mine
unfolding program
encoded_mine = refl

welcomed : Welcomes (idle_engine 2) (arrived mine)
unfolding program
welcomed = record { foreign = refl; fresh = refl; way = tt }

abbrev linked_node : Node
linked_node = record small_node { conns = (2, record { id = 5; initiator = 1 }) ∷ [] }

copy_delivered_example :
    ((process_change blake3 uuid to_stdvec keep_size no_png
        (record { engine = idle_engine 1; node = some linked_node })
        7
        50
        (content hi)).0
      ≡ record {
        engine = after_copy;
        node = some (record linked_node { sent = (5, message bytes_mine) ∷ [] });
      })
    × (receive to_stdvec (into_item read_size) small_node 1 (decode from_bytes bytes_mine) true
        ≡ (emit small_node (item_received (arrived mine) 1), true))
    × ((on_remote_item blake3 (idle_engine 2) (arrived mine)).1 ≡ write hi)
copy_delivered_example =
    copy_delivered blake3 uuid to_stdvec from_bytes keep_size read_size no_png parses reads_all
      (idle_engine 1) after_copy linked_node mine hi 7 50 wire_mine bytes_mine small_node 1 true
      (idle_engine 2) made copies sendable encoded_mine welcomed
