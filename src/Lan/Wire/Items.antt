-- ===== src/Lan/Wire/Items.antt =====
-- Items of crates/cled-lan/src/wire.rs: what arrives of an item that is sent.
use cled.Common.{
  List, ap, arith, false, inl, inr, refl, some, subst, sym, true, ℕ, ◌<◌, ◌∙◌, ◌≡◌, ◌≢◌, ◌≤◌,
}
use cled.Clipboard.Content.{
  Image, ClipboardContent, text, image, new_text, from_rgba, normalize_line_endings, Chars,
}
use cled.Clipboard.Content.Lines.{normalize_idempotent}
use cled.Sync.Item.{ClipboardItem, SystemTime}
use cled.Sync.Engine.{is_newer_than, current_of}
use cled.Lan.Error.{ok_injective, Result, Result-cases, ok, ◌>>=◌}
use cled.Lan.Wire.{
  unix_epoch, to_ms, from_millis, to_wire, WireContent, wire_image, from_item, from_wire, into_item,
  decode_png, encode_png, WireItem,
}

-- What of an item survives its way: its time in whole milliseconds.
abbrev pub arrived : ClipboardItem → ClipboardItem
arrived item = record item { created_at = from_millis (to_ms item.created_at) }

-- Content as the program makes it: text is normalized, an image has the pixels of its size.
abbrev pub IsMade : ClipboardContent → Type 0
IsMade (text t) = normalize_line_endings t ≡ t
IsMade (image i) = from_rgba i.width i.height i.rgba ≡ some i

-- A text that the program takes in is one that arrives as it was.
new_text-IsMade : (t : Chars) → IsMade (new_text t)
unfolding new_text
new_text-IsMade t = normalize_idempotent t

module _ (write_png : Image → Result (List ℕ)) (read_png : List ℕ → Result (ℕ × ℕ × List ℕ))
    -- A PNG that was written is read with its size and pixels.
    (reads : (i : Image) (png : List ℕ)
      → write_png i ≡ ok png
      → read_png png ≡ ok (i.width, i.height, i.rgba)) where
  decode_png-encode_png :
      (i : Image) (png : List ℕ)
      → from_rgba i.width i.height i.rgba ≡ some i
      → encode_png write_png i ≡ ok png
      → decode_png read_png i.width i.height png ≡ ok i
  unfolding encode_png decode_png
  decode_png-encode_png i png made h = elim (Result-cases (write_png i)) [
    | inr (e, fails) ↦ absurd (ground (arith, fails))
    | inl (written, w) ↦
        let same : written ≡ png = ground (arith, w) in
        rw (decode_png, reads i png (w ∙ ap ok same)) (ground (arith, made))
  ]

  from_wire-to_wire :
      (content : ClipboardContent) (w : WireContent)
      → IsMade content
      → to_wire write_png content ≡ ok w
      → from_wire read_png w ≡ ok content
  unfolding from_wire to_wire new_text
  from_wire-to_wire (text t) w made h =
      subst (λ w. from_wire read_png w ≡ ok (text t)) (ok_injective h) (ap (λ t. ok (text t)) made)
  from_wire-to_wire (image i) w made h = elim (Result-cases (encode_png write_png i)) [
    | inr (e, fails) ↦ absurd (ground (arith, fails))
    | inl (png, encoded) ↦
        let same : wire_image i.width i.height png ≡ w = ground (arith, encoded) in
        subst (λ w. from_wire read_png w ≡ ok (image i)) same
          (rw (decode_png-encode_png i png made encoded) refl)
  ]

  -- An item whose content is as the program makes it, and that can be sent, arrives as it was, but for
  -- its time, which is cut to milliseconds, if the decoder reads what the encoder wrote.
  pub into_item-from_item :
      (item : ClipboardItem) (wire : WireItem)
      → IsMade item.content
      → from_item write_png item ≡ ok wire
      → into_item read_png wire ≡ ok (arrived item)
  unfolding into_item from_item
  into_item-from_item item wire made h = elim (Result-cases (to_wire write_png item.content)) [
    | inr (e, fails) ↦ absurd (ground (arith, fails))
    | inl (content, encoded) ↦
        subst (λ w. into_item read_png w ≡ ok (arrived item))
          (ok_injective (
            ap
              (λ r. r >>= λ content. ok (record {
                id = item.id;
                origin = item.origin;
                created_at_ms = to_ms item.created_at;
                content_hash = item.content_hash;
                content = content;
              }))
              (sym encoded)
            ∙ h))
          (rw (from_wire-to_wire item.content content made encoded) refl)
  ]

from_millis-to_ms-le : (t : SystemTime) → unix_epoch ≤ t → from_millis (to_ms t) ≤ t
unfolding to_ms
from_millis-to_ms-le t after = ground arith

-- Two items of the same millisecond after the epoch, of which the second has the higher id: the device
-- that made the first, at a time that is not a whole millisecond, keeps it when the second arrives,
-- and a device at which both arrived prefers the second.
pub is_newer_than-arrived :
    (item late : ClipboardItem)
    → unix_epoch ≤ item.created_at
    → from_millis (to_ms item.created_at) ≢ item.created_at
    → to_ms late.created_at ≡ to_ms item.created_at
    → item.id < late.id
    → (is_newer_than (current_of item) (arrived late) ≡ true)
      × (is_newer_than (current_of (arrived item)) (arrived late) ≡ false)
unfolding is_newer_than
is_newer_than-arrived item late after part same order =
    let below = from_millis-to_ms-le item.created_at after in ground (arith, below)
