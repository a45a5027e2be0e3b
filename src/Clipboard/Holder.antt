-- ===== src/Clipboard/Holder.antt =====
-- crates/cled-clipboard/src/holder.rs: the process that keeps the content after the app exits. What the
-- clipboard service answers it is an argument.
pub mod HandOff
use cled.Common.{
  Bool, List, Option, [], drop, false, if◌then◌else◌, length, list_eq, ltb, nat_eq, none, not, some,
  take, ℕ, ◌&&◌, ◌++◌, ◌+◌, ◌==◌, ◌∷◌,
}
use cled.Common.Bytes.{to_le_bytes, from_le_bytes}
use cled.Common.Utf8.{as_bytes, from_utf8}
use cled.Clipboard.Content.{Chars, Image, ClipboardContent, text, image, from_rgba}
use cled.Clipboard.Error.{Result, done, failed}
use cled.Clipboard.Snapshot.{Snapshot, empty, content, skipped, SkipReason}

unfoldable pub encode : ClipboardContent → List ℕ
encode (text t) = b'T' ∷ as_bytes t
encode (image i) = b'I' ∷ (to_le_bytes 4 i.width ++ (to_le_bytes 4 i.height ++ i.rgba))

abbrev pub text_of : Option Chars → Option ClipboardContent
text_of none = none
text_of (some t) = some (text t)

abbrev pub image_of : Option Image → Option ClipboardContent
image_of none = none
image_of (some i) = some (image i)

-- The image whose width and height take four bytes each.
unfoldable pub decode_image : List ℕ → Option ClipboardContent
decode_image rest =
    if ltb (length rest) 8
    then none
    else image_of (
        from_rgba (from_le_bytes (take 4 rest)) (from_le_bytes (take 4 (drop 4 rest)))
          (drop 8 rest))

unfoldable pub decode : List ℕ → Option ClipboardContent
decode [] = none
decode (tag ∷ rest) =
    if tag == b'T'
    then text_of (from_utf8 rest)
    else if tag == b'I'
    then decode_image rest
    else none

-- `PartialEq` of snapshots.
abbrev content_beq : ClipboardContent → ClipboardContent → Bool
content_beq (text t) (text t') = t == t'
content_beq (image i) (image j) = i.width == j.width && (i.height == j.height && i.rgba == j.rgba)
content_beq _ _ = false

abbrev pub shows : ClipboardContent → Snapshot → Bool
shows expected (content c) = content_beq c expected
shows expected _ = false

-- How `hold_from_stdin` ends, and what was done: nothing is written where something newer was copied.
pub data Held : Type 0 where
  malformed stepped_aside : Held
  read_error write_error : Held
  -- Another content was reported after so many reports of its own, or the reports ended.
  released : (own_reports : ℕ) → Held

-- The loop over the changes.
unfoldable pub watch : ClipboardContent → List Snapshot → ℕ → ℕ
watch expected [] n = n
watch expected (s ∷ changes) n =
    if not (shows expected s) then n else watch expected changes (n + 1)

-- The content that is written to the clipboard, if any, with how it ends.
unfoldable pub take_over :
    ClipboardContent → Result Snapshot → Bool → List Snapshot → Option ClipboardContent × Held
take_over expected (failed e) written changes = (none, read_error)
take_over expected (done s) written changes =
    if not (shows expected s)
    then (none, stepped_aside)
    else if not written
    then (none, write_error)
    else (some expected, released (watch expected changes 0))

-- `hold_from_stdin`, of the bytes of its input.
unfoldable pub hold_from_stdin :
    List ℕ → Result Snapshot → Bool → List Snapshot → Option ClipboardContent × Held
hold_from_stdin bytes current written changes = elim (decode bytes) [
  | none ↦ (none, malformed)
  | some expected ↦ take_over expected current written changes
]
