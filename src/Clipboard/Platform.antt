-- ===== src/Clipboard/Platform.antt =====
-- crates/cled-clipboard/src/platform: what is common to the systems (mod.rs), the backends of backend.rs, and
-- arboard.rs. The answers of the crate arboard are arguments.
pub mod Linux
pub mod Native
pub mod Private
pub mod Replies
pub mod Watching
use cled.Common.{
  Bool, List, Option, [], any, contains, false, if◌then◌else◌, list_eq, ltb, nat_eq, none, some,
  true, ◌&&◌, ◌^◌, ◌∷◌,
}
use cled.Common.Utf8.{codes}
use cled.Clipboard.Content.{Chars, Image, ClipboardContent, text, image}
use cled.Clipboard.Error.{
  Result, done, failed, ClipboardError, unavailable, busy, conversion, other,
}
use cled.Clipboard.Snapshot.{RawImage}

pub data ClipboardBackend : Type 0 where
  windows mac_os wayland x11 x_wayland : ClipboardBackend

-- `ClipboardBackend::is_limited`.
unfoldable is_limited : ClipboardBackend → Bool
is_limited windows = false
is_limited mac_os = false
is_limited wayland = false
is_limited x11 = false
is_limited x_wayland = true

-- `CONTENT_DIES_WITH_PROCESS`.
unfoldable content_dies_with_process : ClipboardBackend → Bool
content_dies_with_process windows = false
content_dies_with_process mac_os = false
content_dies_with_process wayland = true
content_dies_with_process x11 = true
content_dies_with_process x_wayland = true

-- The names of the formats that mark content as private.
abbrev pub private_format_names : List Chars
private_format_names =
    codes "org.nspasteboard.ConcealedType"
    ∷ codes "org.nspasteboard.TransientType"
    ∷ codes "org.nspasteboard.AutoGeneratedType"
    ∷ codes "x-kde-passwordManagerHint"
    ∷ []

unfoldable pub has_private_marker : List Chars → Bool
has_private_marker formats = any (λ format. contains private_format_names format) formats

-- `arboard::Error`.
pub data ArboardError : Type 0 where
  content_not_available clipboard_not_supported clipboard_occupied : ArboardError
  conversion_failure unknown : ArboardError

-- What arboard answers.
pub data Arboard {ℓ} (A : Type ℓ) : Type ℓ where
  gave : A → Arboard A
  refused : ArboardError → Arboard A

unfoldable map_error : ArboardError → ClipboardError
map_error clipboard_not_supported = unavailable
map_error clipboard_occupied = busy
map_error conversion_failure = conversion
map_error content_not_available = other
map_error unknown = other

unfoldable not_available_as_none {ℓ} : {A : Type ℓ} → Arboard A → Result (Option A)
not_available_as_none (gave a) = done (some a)
not_available_as_none (refused content_not_available) = done none
not_available_as_none (refused clipboard_not_supported) = failed (map_error clipboard_not_supported)
not_available_as_none (refused clipboard_occupied) = failed (map_error clipboard_occupied)
not_available_as_none (refused conversion_failure) = failed (map_error conversion_failure)
not_available_as_none (refused unknown) = failed (map_error unknown)

-- `Backend::read_text`.
unfoldable backend_read_text : Arboard Chars → Result (Option Chars)
backend_read_text answer = not_available_as_none answer

-- `u32::try_from` of both edges.
abbrev narrowed : Result (Option RawImage) → Result (Option RawImage)
narrowed (failed e) = failed e
narrowed (done none) = done none
narrowed (done (some raw)) =
    if ltb raw.width (2 ^ 32) && ltb raw.height (2 ^ 32) then done (some raw) else failed conversion

-- `Backend::read_image`, where arboard counts in `usize`.
unfoldable backend_read_image : Arboard RawImage → Result (Option RawImage)
backend_read_image answer = narrowed (not_available_as_none answer)

abbrev written : Arboard (Unit {0}) → Result (Unit {0})
written (gave ok) = done ok
written (refused e) = failed (map_error e)

-- `Clipboard::write`, with `write_text` and `write_image` of the backend.
unfoldable write_clipboard_content :
    (Chars → Arboard (Unit {0}))
    → (Image → Arboard (Unit {0}))
    → ClipboardContent
    → Result (Unit {0})
write_clipboard_content set_text set_image (text t) = written (set_text t)
write_clipboard_content set_text set_image (image i) = written (set_image i)
