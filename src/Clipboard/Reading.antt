-- ===== src/Clipboard/Reading.antt =====
-- What crates/cled-clipboard/src/lib.rs reads from the clipboard.
use cled.Common.{
  Bool, Bool-cases, List, Option, Option-cases, ap, arith, contains, false, inl, inr, length, ltb,
  ltb-false→le, nat_eq, none, refl, some, true, ℕ, ◌*◌, ◌≡◌, ◌≤◌, ◌<◌, ◌⊎◌, ◌≢◌,
}
use cled.Clipboard.Content.Lines.{contains-normalize}
use cled.Clipboard.Content.{
  Image, text, image, from_rgba, rgba_len, Chars, new_text, normalize_line_endings,
}
use cled.Clipboard.Error.{Result, ClipboardError, done, failed, conversion}
use cled.Clipboard.Snapshot.{
  Snapshot, empty, content, skipped, sensitive, too_large, max_image_bytes, read, read_image,
  read_text, RawImage,
}

-- An image that is too large to be read.
abbrev pub IsLarge : RawImage → Type 0
IsLarge raw = max_image_bytes < length raw.rgba

-- Text and image are what the system gives when it is asked. An image has the size and the pixels that were given,
-- four bytes for each, and at most 64 MiB; a text is the given one without its carriage returns.
abbrev pub IsOf : Result (Option Chars) → Result (Option RawImage) → Snapshot → Type 0
IsOf t raw empty = (t ≡ done none) × (raw ≡ done none)
IsOf t raw (content (text s)) =
    (given : Chars) × (t ≡ done (some given))
    × (normalize_line_endings given ≡ s)
    × (contains s 13 ≡ false)
IsOf t raw (content (image i)) =
    (given : RawImage) × (t ≡ done none)
    × (raw ≡ done (some given))
    × (i.width ≡ given.width)
    × (i.height ≡ given.height)
    × (i.rgba ≡ given.rgba)
    × (length i.rgba ≤ max_image_bytes)
    × (length i.rgba ≡ i.width * i.height * 4)
IsOf t raw (skipped sensitive) = ⊥
IsOf t raw (skipped (too_large w h)) =
    (given : RawImage) × (t ≡ done none)
    × (raw ≡ done (some given))
    × IsLarge given
    × (w ≡ given.width)
    × (h ≡ given.height)

-- Where an error comes from: the text, the image, or an image whose size does not fit its pixels.
abbrev pub Fails : Result (Option Chars) → Result (Option RawImage) → ClipboardError → Type 0
Fails t raw e =
    (t ≡ failed e)
    ⊎ ((t ≡ done none)
        × ((raw ≡ failed e)
            ⊎ ((given : RawImage) × (raw ≡ done (some given))
                × (e ≡ conversion)
                × (length given.rgba ≤ max_image_bytes)
                × (length given.rgba ≢ given.width * given.height * 4))))

abbrev pub IsRead : Result (Option Chars) → Result (Option RawImage) → Result Snapshot → Type 0
IsRead t raw (failed e) = Fails t raw e
IsRead t raw (done s) = IsOf t raw s

-- What is known to be private is sensitive, and all else is read, also if it is not known.
abbrev pub IsAllowed :
    Result Bool → Result (Option Chars) → Result (Option RawImage) → Result Snapshot → Type 0
IsAllowed (failed e) t raw result = IsRead t raw result
IsAllowed (done true) t raw result = result ≡ done (skipped sensitive)
IsAllowed (done false) t raw result = IsRead t raw result

from_rgba-fields :
    (w h : ℕ) (rgba : List ℕ) (i : Image)
    → from_rgba w h rgba ≡ some i
    → (i.width ≡ w) × (i.height ≡ h) × (i.rgba ≡ rgba) × (length i.rgba ≡ i.width * i.height * 4)
unfolding from_rgba rgba_len
from_rgba-fields w h rgba i made = ground arith

from_rgba-misfit :
    (w h : ℕ) (rgba : List ℕ)
    → length rgba ≤ max_image_bytes
    → from_rgba w h rgba ≡ none
    → length rgba ≢ w * h * 4
unfolding from_rgba rgba_len
from_rgba-misfit w h rgba le bad fit = ground arith

read_image-IsRead :
    (t : Result (Option Chars)) (raw : Result (Option RawImage))
    → t ≡ done none
    → IsRead t raw (read_image raw)
unfolding read_image
read_image-IsRead t (failed e) h = inr (h, inl refl)
read_image-IsRead t (done none) h = (h, refl)
read_image-IsRead t (done (some raw)) h =
    elim (Bool-cases (ltb max_image_bytes (length raw.rgba))) [
      | inl large ↦ rw large (raw, h, refl, ground (arith, large), refl, refl)
      | inr small ↦ elim (Option-cases (from_rgba raw.width raw.height raw.rgba)) [
        | inl bad ↦
            rw (small, bad)
              (inr (
                h,
                inr (
                  raw,
                  refl,
                  refl,
                  ltb-false→le max_image_bytes (length raw.rgba) small,
                  from_rgba-misfit raw.width raw.height raw.rgba
                      (ltb-false→le max_image_bytes (length raw.rgba) small) bad,
                ),
              ))
        | inr (i, made) ↦
            let (width, height, same, whole) =
              from_rgba-fields raw.width raw.height raw.rgba i made in
            let fits : length i.rgba ≤ max_image_bytes =
              omega (arith, ap length same, ltb-false→le max_image_bytes (length raw.rgba) small) in
            rw (small, made) (raw, h, refl, width, height, same, fits, whole)
      ]
    ]

read_text-IsRead :
    (t : Result (Option Chars)) (raw : Result (Option RawImage)) → IsRead t raw (read_text t raw)
unfolding read_text new_text
read_text-IsRead (failed e) raw = inl refl
read_text-IsRead (done none) raw = read_image-IsRead (done none) raw refl
read_text-IsRead (done (some t)) raw = (t, refl, refl, contains-normalize t)

-- Content that is known to be private comes to a sensitive snapshot, whatever text and image are there. All else is
-- read: the text that is given, without carriage returns; if there is none, the image that is given, of at most
-- 64 MiB with four bytes for each pixel; a larger one is skipped as too large with its size; with neither the
-- snapshot is empty. An error is the one of the text or, without text, of the image, or a conversion error for an
-- image that is not too large but has not four bytes for each pixel.
pub read-IsAllowed :
    (private : Result Bool) (t : Result (Option Chars)) (raw : Result (Option RawImage))
    → IsAllowed private t raw (read private t raw)
unfolding read
read-IsAllowed (failed e) t raw = read_text-IsRead t raw
read-IsAllowed (done true) t raw = refl
read-IsAllowed (done false) t raw = read_text-IsRead t raw
