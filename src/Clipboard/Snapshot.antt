-- ===== src/Clipboard/Snapshot.antt =====
-- crates/cled-clipboard/src/snapshot.rs, detector.rs and the reading and writing of lib.rs. What the
-- operating system answers is an argument, and the hasher of the standard library a parameter.
use cled.Common.{
  Bool, List, Option, false, if◌then◌else◌, is_some, length, ltb, nat_eq, none, not, option_eq,
  some, true, ℕ, ◌&&◌, ◌==◌,
}
use cled.Clipboard.Content.{
  Chars, Image, ClipboardContent, text, image, identity_text, new_text, from_rgba,
}
use cled.Clipboard.Error.{Result, done, failed, conversion}

-- 64 MiB of pixels.
abbrev pub max_image_bytes : ℕ
max_image_bytes = 67108864

pub data SkipReason : Type 0 where
  sensitive : SkipReason
  too_large : (width height : ℕ) → SkipReason

pub data Snapshot : Type 0 where
  empty : Snapshot
  content : ClipboardContent → Snapshot
  skipped : SkipReason → Snapshot

-- What a snapshot's fingerprint is taken of: the values that are fed to the hasher.
pub data Hashed : Type 0 where
  hashed_text : Chars → Hashed
  hashed_image : Image → Hashed
  hashed_reason : SkipReason → Hashed

-- `Hash for ClipboardContent`.
unfoldable pub hashed : ClipboardContent → Hashed
hashed (text t) = hashed_text (identity_text t)
hashed (image i) = hashed_image i

module _ (hash : Hashed → ℕ) where
  unfoldable pub fingerprint : Snapshot → Option ℕ
  fingerprint empty = none
  fingerprint (content c) = some (hash (hashed c))
  fingerprint (skipped reason) = some (hash (hashed_reason reason))

  -- `ChangeDetector`, whose state is the last fingerprint.
  unfoldable pub baseline : Option ℕ → Snapshot → Option ℕ
  baseline last s = fingerprint s

  unfoldable pub observe : Option ℕ → Snapshot → Option ℕ × Bool
  observe last s =
      let current = fingerprint s in (current, is_some current && not (current == last))

-- An image as the operating system gives it.
pub record RawImage : Type 0 where
  pub width : ℕ
  pub height : ℕ
  pub rgba : List ℕ

-- `Clipboard::read` from the image, once there is no text.
unfoldable pub read_image : Result (Option RawImage) → Result Snapshot
read_image (failed e) = failed e
read_image (done none) = done empty
read_image (done (some raw)) =
    if ltb max_image_bytes (length raw.rgba)
    then done (skipped (too_large raw.width raw.height))
    else elim (from_rgba raw.width raw.height raw.rgba) [
      | none ↦ failed conversion
      | some i ↦ done (content (image i))
    ]

unfoldable pub read_text : Result (Option Chars) → Result (Option RawImage) → Result Snapshot
read_text (failed e) raw = failed e
read_text (done (some t)) raw = done (content (new_text t))
read_text (done none) raw = read_image raw

-- `Clipboard::read`: whether the content is private, then the text, then the image. The code asks for the text and
-- the image only when it comes to them; here they are what the system would answer.
unfoldable pub read :
    Result Bool → Result (Option Chars) → Result (Option RawImage) → Result Snapshot
read (failed e) t raw = read_text t raw
read (done true) t raw = done (skipped sensitive)
read (done false) t raw = read_text t raw
