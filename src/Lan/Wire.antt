-- ===== src/Lan/Wire.antt =====
-- crates/cled-lan/src/wire.rs: the messages of paired devices. The 16 bytes of an id and the 32 of a
-- key or a hash are the numbers that they spell. The encodings of the crates postcard and image are
-- parameters.
pub mod Items
use cled.Common.{
  List, Option, if◌then◌else◌, length, ltb, min, nat_eq, none, some, ℕ, ◌&&◌, ◌*◌, ◌+◌, ◌-◌, ◌/◌,
  ◌==◌, ◌^◌,
}
use cled.Clipboard.Content.{Chars, Image, ClipboardContent, text, image, new_text, from_rgba}
use cled.Sync.Item.{DeviceId, ItemId, ContentHash, SystemTime, ClipboardItem}
use cled.Lan.Addr.{SocketAddr}
use cled.Lan.Error.{Result, ok, err, malformed, too_large, ◌>>=◌}

abbrev pub protocol_version : ℕ
protocol_version = 1

-- 16 MiB.
abbrev pub max_message_bytes : ℕ
max_message_bytes = 16777216

pub record Hello : Type 0 where
  pub protocol : ℕ
  pub device_id : DeviceId
  pub name : Chars
  pub listen_port : ℕ
  pub time_ms : ℕ

pub data ByeReason : Type 0 where
  unpaired : ByeReason

pub record RosterPeer : Type 0 where
  pub device_id : DeviceId
  pub name : Chars
  pub public_key : ℕ
  pub paired_at_ms : ℕ
  pub address : Option SocketAddr

pub record RosterRemoval : Type 0 where
  pub peer : RosterPeer
  pub removed_at_ms : ℕ

pub record Roster : Type 0 where
  pub members : List RosterPeer
  pub removed : List RosterRemoval

pub data WireContent : Type 0 where
  wire_text : Chars → WireContent
  wire_image : (width height : ℕ) → (png : List ℕ) → WireContent

pub record WireItem : Type 0 where
  pub id : ItemId
  pub origin : DeviceId
  pub created_at_ms : ℕ
  pub content_hash : ContentHash
  pub content : WireContent

pub data Message : Type 0 where
  hello : Hello → Message
  item : WireItem → Message
  ping : Message
  bye : ByeReason → Message
  roster : Roster → Message

module _ (to_stdvec : Message → Result (List ℕ)) where
  -- `Message::encode`. Every error of postcard is malformed.
  unfoldable pub encode : Message → Result (List ℕ)
  encode m = elim (to_stdvec m) [
    | err e ↦ err malformed
    | ok bytes ↦
        if ltb max_message_bytes (length bytes) then err (too_large (length bytes)) else ok bytes
  ]

-- `Message::decode`.
unfoldable pub decode : (List ℕ → Result Message) → List ℕ → Result Message
decode from_bytes bytes = elim (from_bytes bytes) [ err e ↦ err malformed | ok m ↦ ok m ]

-- `UNIX_EPOCH`, where `SystemTime` starts 2^63 seconds earlier.
abbrev pub unix_epoch : SystemTime
unix_epoch = 2 ^ 63 * 1000000000

-- The whole milliseconds since the epoch, 0 before it, at most 2^64 - 1.
unfoldable pub to_ms : SystemTime → ℕ
to_ms time = if ltb time unix_epoch then 0 else min ((time - unix_epoch) / 1000000) (2 ^ 64 - 1)

-- `UNIX_EPOCH + Duration::from_millis(ms)`.
abbrev pub from_millis : ℕ → SystemTime
from_millis ms = unix_epoch + ms * 1000000

module _ (write_png : Image → Result (List ℕ)) where
  unfoldable pub encode_png : Image → Result (List ℕ)
  encode_png i = elim (write_png i) [ err e ↦ err malformed | ok png ↦ ok png ]

  -- The content of `WireItem::from_item`.
  unfoldable pub to_wire : ClipboardContent → Result WireContent
  to_wire (text t) = ok (wire_text t)
  to_wire (image i) = encode_png i >>= λ png. ok (wire_image i.width i.height png)

  -- `WireItem::from_item`.
  unfoldable pub from_item : ClipboardItem → Result WireItem
  from_item i = to_wire i.content >>= λ content. ok (record {
    id = i.id;
    origin = i.origin;
    created_at_ms = to_ms i.created_at;
    content_hash = i.content_hash;
    content = content;
  })

-- The width, the height and the pixels of an image, or the decoder's error, which is also given when
-- the image takes more memory than the limit.
module _ (read_png : List ℕ → Result (ℕ × ℕ × List ℕ)) where
  unfoldable pub decode_png : ℕ → ℕ → List ℕ → Result Image
  decode_png width height png = elim (read_png png) [
    | err e ↦ err malformed
    | ok decoded ↦
        if decoded.0 == width && decoded.1 == height
        then elim (from_rgba width height decoded.2) [ none ↦ err malformed | some i ↦ ok i ]
        else err malformed
  ]

  -- The content of `WireItem::into_item`.
  unfoldable pub from_wire : WireContent → Result ClipboardContent
  from_wire (wire_text t) = ok (new_text t)
  from_wire (wire_image width height png) = decode_png width height png >>= λ i. ok (image i)

  -- `WireItem::into_item`.
  unfoldable pub into_item : WireItem → Result ClipboardItem
  into_item w = from_wire w.content >>= λ content. ok (record {
    id = w.id;
    origin = w.origin;
    content_hash = w.content_hash;
    created_at = from_millis w.created_at_ms;
    content = content;
  })
