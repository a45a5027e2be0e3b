-- ===== src/Clipboard/Platform/Native.antt =====
-- `Native` of each system in crates/cled-clipboard/src/platform: linux/mod.rs, windows.rs and macos.rs, with what
-- the systems answer as arguments, and what `Clipboard` and `spawn` make of it.
use cled.Common.{
  Bool, List, Option, [], any, false, if◌then◌else◌, nat_eq, none, retain, some, true, ℕ, ◌==◌, ◌∷◌,
}
use cled.Common.Utf8.{codes}
use cled.Clipboard.Content.{Chars}
use cled.Clipboard.Error.{Result, done, failed, busy}
use cled.Clipboard.Snapshot.{Snapshot, RawImage, read}
use cled.Clipboard.Platform.{
  ClipboardBackend, windows, mac_os, wayland, x11, x_wayland, has_private_marker,
}
use cled.Clipboard.Platform.Linux.{
  Paste, formats, wayland_is_private, wayland_change_token, Atom, Poll, x11_is_private,
}

-- The backend that `Native::new` chooses on Linux: whether `WAYLAND_DISPLAY` is set, what Wayland answers, and
-- whether there is a connection to X11.
unfoldable new_linux :
    (under_wayland : Bool) → Paste (List Chars) → Result (Unit {0}) → Result ClipboardBackend
new_linux false answer (failed e) = failed e
new_linux false answer (done targets) = done x11
new_linux true answer targets = elim (formats answer) [
  | some names ↦ done wayland
  | none ↦ elim targets [ failed e ↦ failed e | done there ↦ done x_wayland ]
]

pub record Windows : Type 0 where
  pub exclude_from_monitoring : Option ℕ
  pub dword_opt_outs : List ℕ

abbrev opt_out_names : List Chars
opt_out_names = codes "CanIncludeInClipboardHistory" ∷ codes "CanUploadToCloudClipboard" ∷ []

abbrev filter_map {ℓ κ} : {A : Type ℓ} {B : Type κ} → (A → Option B) → List A → List B
filter_map f [] = []
filter_map f (a ∷ rest) = elim (f a) [ none ↦ filter_map f rest | some b ↦ b ∷ filter_map f rest ]

-- `Native::new` on Windows.
unfoldable new_windows : (register_format : Chars → Option ℕ) → Windows
new_windows register_format = record {
  exclude_from_monitoring = register_format (codes "ExcludeClipboardContentFromMonitorProcessing");
  dword_opt_outs = filter_map register_format opt_out_names;
}

abbrev pub is_some_and : Option ℕ → (ℕ → Bool) → Bool
is_some_and none p = false
is_some_and (some a) p = p a

-- A value of four bytes that is zero.
abbrev pub says_no : (ℕ → Option ℕ) → ℕ → Bool
says_no value format = elim (value format) [ none ↦ false | some v ↦ v == 0 ]

abbrev pub opened : Bool → List ℕ → (ℕ → Option ℕ) → Result Bool
opened opens [] value = done false
opened opens (format ∷ rest) value =
    if opens then done (any (says_no value) (format ∷ rest)) else failed busy

-- `is_private` on Windows: which formats are on the clipboard, whether it can be opened, and the values of four
-- bytes that are read.
unfoldable pub windows_is_private :
    Windows → (ℕ → Bool) → (opens : Bool) → (ℕ → Option ℕ) → Result Bool
windows_is_private w is_format_avail opens value =
    if is_some_and w.exclude_from_monitoring is_format_avail
    then done true
    else opened opens (retain is_format_avail w.dword_opt_outs) value

unfoldable pub mac_os_is_private : Option (List Chars) → Result Bool
mac_os_is_private none = done false
mac_os_is_private (some types) = done (has_private_marker types)

-- What a system tells of the clipboard without its content.
pub data System : Type 0 where
  on_wayland : Paste (List Chars) → System
  on_x11 : (marker : Atom) → Result (Unit {0}) → (window now : ℕ) → List Poll → System
  on_windows : Windows → (ℕ → Bool) → (opens : Bool) → (ℕ → Option ℕ) → System
  on_mac_os : Option (List Chars) → System

-- `none` is that X11 has not answered yet.
unfoldable pub is_private : System → Option (Result Bool)
is_private (on_wayland answer) = some (wayland_is_private answer)
is_private (on_x11 marker requested window now polls) =
    x11_is_private marker requested window now polls
is_private (on_windows w avail opens value) = some (windows_is_private w avail opens value)
is_private (on_mac_os types) = some (mac_os_is_private types)

-- `Clipboard::read`.
unfoldable pub clipboard_read :
    System → Result (Option Chars) → Result (Option RawImage) → Option (Result Snapshot)
clipboard_read s t raw = elim (is_private s) [
  | none ↦ none
  | some private ↦ some (read private t raw)
]

-- `change_token`: Windows and macOS count the changes, and on Wayland the content can be read.
unfoldable pub change_token :
    (List Chars → Option (List ℕ) → ℕ) → System → (count : Option ℕ) → Option (List ℕ) → Option ℕ
change_token hash (on_wayland answer) count contents = wayland_change_token hash answer contents
change_token hash (on_x11 marker requested window now polls) count contents = none
change_token hash (on_windows w avail opens value) count contents = count
change_token hash (on_mac_os types) count contents = count

pub data ChangeDetection : Type 0 where
  events polling : ChangeDetection

-- `watch`, where `starts` is whether the watcher of the system could be set up; macOS has none.
unfoldable has_watcher : ClipboardBackend → (starts : Bool) → Bool
has_watcher mac_os starts = false
has_watcher windows starts = starts
has_watcher wayland starts = starts
has_watcher x11 starts = starts
has_watcher x_wayland starts = starts

unfoldable pub detection : (watching : Bool) → ChangeDetection
detection true = events
detection false = polling

-- The interval of the checks, in milliseconds.
unfoldable check_interval : ChangeDetection → (poll_interval : ℕ) → ℕ
check_interval events poll_interval = 5000
check_interval polling poll_interval = poll_interval
