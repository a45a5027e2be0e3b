-- ===== src/Desktop/Device.antt =====
-- apps/desktop/src-tauri/src/device.rs: the id of this device and its file.
use cled.Common.{
  &&-eq-true, Bool, Option, Option-cases, [], all, arith, false, if◌then◌else◌, inl, inr, nat_eq,
  none, refl, some, true, ◌++◌, ◌<◌, ◌^◌, ◌∷◌, ◌≡◌,
}
use cled.Clipboard.Content.{identity_text, Chars, is_whitespace, trim_end}
use cled.Clipboard.Content.Trim.{identity_text-append}
use cled.Sync.Item.{DeviceId}
use cled.Sync.Item.Text.{
  UuidText, parse_id, parse_id-display, trim, trim_start, is_graphic, not_whitespace,
}

-- What reading the file as text comes to.
pub data IdRead : Type 0 where
  text_of : Chars → IdRead
  not_found unreadable : IdRead

-- A new id, and what is saved of it, if the file is written.
unfoldable create_id : UuidText → DeviceId → Bool → DeviceId × Option Chars
create_id u id disk = (id, if disk then some (u.display id ++ 10 ∷ []) else none)

abbrev or_create : UuidText → Option DeviceId → DeviceId → Bool → DeviceId × Option Chars
or_create u none new disk = create_id u new disk
or_create u (some id) new disk = (id, none)

-- `load_or_create`, where `new` is the id that is created and `has_dir` whether there is a place for the
-- file; the second component is what is written to the file.
unfoldable load_or_create_id :
    UuidText
    → (has_dir : Bool) → IdRead
    → (new : DeviceId) → (disk : Bool) → DeviceId × Option Chars
load_or_create_id u false read new disk = (new, none)
load_or_create_id u true (text_of t) new disk = or_create u (parse_id u t) new disk
load_or_create_id u true not_found new disk = create_id u new disk
load_or_create_id u true unreadable new disk = create_id u new disk

newline : all is_whitespace (10 ∷ []) ≡ true
unfolding is_whitespace
newline = refl

trim-line : (t : Chars) → all is_graphic t ≡ true → trim (t ++ 10 ∷ []) ≡ trim t
unfolding trim trim_start identity_text is_whitespace trim_end
trim-line [] h = identity_text-append [] (10 ∷ []) newline
trim-line (c ∷ cs) h =
    rw (not_whitespace c (&&-eq-true (is_graphic c) _ h).0)
      (identity_text-append (c ∷ cs) (10 ∷ []) newline)

parse_id-line :
    (u : UuidText) (id : DeviceId) → id < 2 ^ 128 → parse_id u (u.display id ++ 10 ∷ []) ≡ some id
unfolding parse_id
parse_id-line u id h =
    rw (parse_id, trim-line (u.display id) (u.display-graphic id)) (parse_id-display u id h)

-- What was written when an id was created.
created :
    (u : UuidText) (read : IdRead) (new id : DeviceId) (t : Chars)
    → load_or_create_id u true read new true ≡ (id, some t)
    → (id ≡ new) × (t ≡ u.display new ++ 10 ∷ [])
unfolding load_or_create_id create_id
created u (text_of s) new id t h = elim (Option-cases (parse_id u s)) [
  | inl bad ↦ ground (arith, bad)
  | inr (good, found) ↦ absurd (ground (arith, found))
]
created u not_found new id t h = ground arith
created u unreadable new id t h = ground arith

-- An id that was created and saved is the id of each later start, whatever the file held before.
load_or_create_id_again :
    (u : UuidText) (read : IdRead) (new id later : DeviceId) (t : Chars) (disk : Bool)
    → new < 2 ^ 128
    → load_or_create_id u true read new true ≡ (id, some t)
    → load_or_create_id u true (text_of t) later disk ≡ (id, none)
unfolding load_or_create_id
load_or_create_id_again u read new id later t disk bound h =
    let (same, file) = created u read new id t h in
    let parsed : parse_id u t ≡ some id = rw (file, same) (parse_id-line u new bound) in
    rw (load_or_create_id, parsed) refl
