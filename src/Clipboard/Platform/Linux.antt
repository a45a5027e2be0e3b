-- ===== src/Clipboard/Platform/Linux.antt =====
-- crates/cled-clipboard/src/platform/linux: the formats that Wayland and X11 tell of, and the change token.
-- What the servers answer is an argument, and the hasher of the standard library a parameter.
use cled.Common.{
  Bool, List, Option, [], contains, false, if◌then◌else◌, leb, nat_eq, none, not, some, true, ℕ,
  ◌&&◌, ◌+◌, ◌==◌, ◌∷◌,
}
use cled.Clipboard.Content.{Chars}
use cled.Clipboard.Error.{Result, done, failed, busy, other}
use cled.Clipboard.Platform.{has_private_marker}

-- What `wl_clipboard_rs::paste` answers.
pub data Paste {ℓ} (A : Type ℓ) : Type ℓ where
  pasted : A → Paste A
  clipboard_empty no_seats unknown : Paste A

-- `formats` of wayland.rs, where `none` is an error.
unfoldable pub formats : Paste (List Chars) → Option (List Chars)
formats (pasted names) = some names
formats clipboard_empty = some []
formats no_seats = some []
formats unknown = none

abbrev marked : Option (List Chars) → Result Bool
marked none = failed other
marked (some names) = done (has_private_marker names)

-- `is_private` of wayland.rs.
unfoldable pub wayland_is_private : Paste (List Chars) → Result Bool
wayland_is_private answer = marked (formats answer)

abbrev hash_contents : (List Chars → Option (List ℕ) → ℕ) → List Chars → Option (List ℕ) → Option ℕ
hash_contents hash names none = none
hash_contents hash names (some bytes) = some (hash names (some bytes))

abbrev pub is_empty {ℓ} : {A : Type ℓ} → List A → Bool
is_empty [] = true
is_empty (a ∷ as') = false

abbrev pub token_of : (List Chars → Option (List ℕ) → ℕ) → List Chars → Option (List ℕ) → Option ℕ
token_of hash names contents =
    if not (is_empty names) && not (has_private_marker names)
    then hash_contents hash names contents
    else some (hash names none)

-- `change_token` of wayland.rs: what is hashed of the names and, unless they tell that the content is private, of
-- the bytes that are read. An error is `none`.
unfoldable pub wayland_change_token :
    (List Chars → Option (List ℕ) → ℕ) → Paste (List Chars) → Option (List ℕ) → Option ℕ
wayland_change_token hash answer contents = elim (formats answer) [
  | none ↦ none
  | some names ↦ token_of hash names contents
]

abbrev pub Atom : Type 0
Atom = ℕ

-- What `poll_for_event` gives: the answer to the request for a window, with the property and what reading it
-- gives; another event; nothing yet; or an error.
pub data Poll : Type 0 where
  selection_notify : (requestor property : ℕ) → Result (Option (List Atom)) → Poll
  other_event : Poll
  nothing : (now : ℕ) → Poll
  poll_failed : Poll

abbrev or_default : Result (Option (List Atom)) → Result (List Atom)
or_default (failed e) = failed e
or_default (done none) = done []
or_default (done (some atoms)) = done atoms

-- The loop of `targets`, over what is polled; `none` is that it still waits. A property of 0 is `NONE`.
unfoldable pub await_targets : (window deadline : ℕ) → List Poll → Option (Result (List Atom))
await_targets window deadline [] = none
await_targets window deadline (selection_notify requestor property reply ∷ polls) =
    let rest = await_targets window deadline polls in
    if requestor == window then some (if property == 0 then done [] else or_default reply) else rest
await_targets window deadline (other_event ∷ polls) = await_targets window deadline polls
await_targets window deadline (nothing now ∷ polls) =
    let rest = await_targets window deadline polls in
    if leb deadline now then some (failed busy) else rest
await_targets window deadline (poll_failed ∷ polls) = some (failed other)

-- `REPLY_TIMEOUT`, in milliseconds.
abbrev pub reply_timeout : ℕ
reply_timeout = 250

-- `Targets::targets`, where `requested` is how sending the request went, and `now` when.
unfoldable pub targets :
    Result (Unit {0}) → (window now : ℕ) → List Poll → Option (Result (List Atom))
targets (failed e) window now polls = some (failed other)
targets (done sent) window now polls = await_targets window (now + reply_timeout) polls

abbrev holds : Atom → Result (List Atom) → Result Bool
holds marker (failed e) = failed e
holds marker (done atoms) = done (contains atoms marker)

abbrev pub holds_marker : Atom → Option (Result (List Atom)) → Option (Result Bool)
holds_marker marker none = none
holds_marker marker (some answer) = some (holds marker answer)

-- `Targets::has_private_marker`.
unfoldable pub x11_is_private :
    (marker : Atom) → Result (Unit {0}) → (window now : ℕ) → List Poll → Option (Result Bool)
x11_is_private marker requested window now polls =
    holds_marker marker (targets requested window now polls)
