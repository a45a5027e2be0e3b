-- ===== src/Clipboard/Holder/HandOff.antt =====
-- crates/cled-clipboard/src/holder.rs: handing the content over to the holder.
use cled.Common.{
  List, all, ap, arith, drop, drop-append_at, false, if◌then◌else◌, length, length-append, list_eq,
  ltb, nat_eq, none, refl, some, take, take-append_at, true, ℕ, ◌++◌, ◌<◌, ◌^◌, ◌∙◌, ◌≡◌,
}
use cled.Clipboard.Snapshot.{Snapshot}
use cled.Common.Bytes.{to_le_bytes, from_le_bytes-to_le_bytes, length-to_le_bytes}
use cled.Common.Utf8.{is_char}
use cled.Common.Utf8.RoundTrip.{from_utf8-as_bytes}
use cled.Clipboard.Content.{Image, ClipboardContent, text, image, from_rgba}
use cled.Clipboard.Holder.{
  encode, decode, decode_image, image_of, hold_from_stdin, take_over, done, shows, released, watch,
  stepped_aside,
}

-- A text of Unicode characters, or an image as `Image::from_rgba` makes it, with edges of four bytes.
abbrev IsContent : ClipboardContent → Type 0
IsContent (text t) = all is_char t ≡ true
IsContent (image i) =
    (from_rgba i.width i.height i.rgba ≡ some i) × (i.width < 2 ^ 32) × (i.height < 2 ^ 32)

-- The three parts of an encoded image.
first_edge :
    (w h : ℕ) (rgba : List ℕ)
    → take 4 (to_le_bytes 4 w ++ (to_le_bytes 4 h ++ rgba)) ≡ to_le_bytes 4 w
first_edge w h rgba = take-append_at 4 (to_le_bytes 4 w) _ (length-to_le_bytes 4 w)

second_edge :
    (w h : ℕ) (rgba : List ℕ)
    → take 4 (drop 4 (to_le_bytes 4 w ++ (to_le_bytes 4 h ++ rgba))) ≡ to_le_bytes 4 h
second_edge w h rgba =
    ap (take 4) (drop-append_at 4 (to_le_bytes 4 w) _ (length-to_le_bytes 4 w))
    ∙ take-append_at 4 (to_le_bytes 4 h) rgba (length-to_le_bytes 4 h)

pixels : (w h : ℕ) (rgba : List ℕ) → drop 8 (to_le_bytes 4 w ++ (to_le_bytes 4 h ++ rgba)) ≡ rgba
unfolding to_le_bytes
pixels w h rgba = refl

wide_enough :
    (w h : ℕ) (rgba : List ℕ)
    → ltb (length (to_le_bytes 4 w ++ (to_le_bytes 4 h ++ rgba))) 8 ≡ false
wide_enough w h rgba = ground (
  arith,
  length-append (to_le_bytes 4 w) (to_le_bytes 4 h ++ rgba),
  length-append (to_le_bytes 4 h) rgba,
  length-to_le_bytes 4 w,
  length-to_le_bytes 4 h,
)

decode_image-encoded :
    (i : Image)
    → IsContent (image i)
    → decode_image (to_le_bytes 4 i.width ++ (to_le_bytes 4 i.height ++ i.rgba)) ≡ some (image i)
unfolding decode_image
decode_image-encoded i h =
    rw
      (
        decode_image,
        wide_enough i.width i.height i.rgba,
        first_edge i.width i.height i.rgba,
        second_edge i.width i.height i.rgba,
        pixels i.width i.height i.rgba,
        from_le_bytes-to_le_bytes 4 i.width h.1,
        from_le_bytes-to_le_bytes 4 i.height h.2,
      )
      (ap image_of h.0)

-- What is handed to the holder is decoded as it was.
pub decode-encode : (c : ClipboardContent) → IsContent c → decode (encode c) ≡ some c
unfolding decode encode
decode-encode (text t) h = rw (from_utf8-as_bytes t h) refl
decode-encode (image i) h = decode_image-encoded i h

-- A holder that is handed content, with edges of four bytes if it is an image, whose reading of the clipboard
-- succeeds and whose write would, writes exactly that content if the clipboard still shows it, as `shows` compares
-- them, and otherwise writes nothing.
pub hold_from_stdin-encode :
    (c : ClipboardContent) (s : Snapshot) (changes : List Snapshot)
    → IsContent c
    → hold_from_stdin (encode c) (done s) true changes
      ≡ (if shows c s then (some c, released (watch c changes 0)) else (none, stepped_aside))
unfolding hold_from_stdin take_over
hold_from_stdin-encode c s changes h = rw (hold_from_stdin, decode-encode c h) (ground arith)
