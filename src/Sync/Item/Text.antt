-- ===== src/Sync/Item/Text.antt =====
-- crates/cled-sync/src/ids.rs: a device id as text. The text form of the crate uuid is a parameter.
use cled.Common.{
  &&-eq-true, Bool, Option, [], all, arith, false, if◌then◌else◌, leb, length, refl, some, true, ℕ,
  ◌&&◌, ◌<◌, ◌^◌, ◌∷◌, ◌≡◌,
}
use cled.Clipboard.Content.{Chars, is_whitespace, trim_end, keep}
use cled.Sync.Item.{DeviceId}

-- Graphic ASCII characters.
abbrev pub is_graphic : ℕ → Bool
is_graphic c = leb 33 c && leb c 126

-- `Uuid`'s `Display` and `parse_str`, with what their documentation says of the hyphenated form: it has
-- 36 ASCII characters, and is parsed back.
pub record UuidText : Type 0 where
  pub display : ℕ → Chars
  pub parse_str : Chars → Option ℕ
  pub length-display : (id : ℕ) → length (display id) ≡ 36
  pub display-graphic : (id : ℕ) → all is_graphic (display id) ≡ true
  pub parse_str-display : (id : ℕ) → id < 2 ^ 128 → parse_str (display id) ≡ some id

-- `str::trim_start`.
unfoldable pub trim_start : Chars → Chars
trim_start [] = []
trim_start (c ∷ cs) = if is_whitespace c then trim_start cs else c ∷ cs

-- `str::trim`.
unfoldable pub trim : Chars → Chars
trim t = trim_end (trim_start t)

-- `DeviceId::from_str`.
unfoldable pub parse_id : UuidText → Chars → Option DeviceId
parse_id u t = u.parse_str (trim t)

pub not_whitespace : (c : ℕ) → is_graphic c ≡ true → is_whitespace c ≡ false
unfolding is_whitespace
not_whitespace c h = ground arith

kept : (c : ℕ) (cs : Chars) → is_whitespace c ≡ false → keep c cs ≡ c ∷ cs
kept c [] h = rw h
kept c (d ∷ ds) h = refl

trim_end-graphic : (t : Chars) → all is_graphic t ≡ true → trim_end t ≡ t
unfolding trim_end
trim_end-graphic [] h = refl
trim_end-graphic (c ∷ cs) h =
    let (first, rest) = &&-eq-true (is_graphic c) _ h in
    rw (trim_end-graphic cs rest) (kept c cs (not_whitespace c first))

trim-graphic : (t : Chars) → all is_graphic t ≡ true → trim t ≡ t
unfolding trim trim_start
trim-graphic [] h = trim_end-graphic [] h
trim-graphic (c ∷ cs) h =
    rw (not_whitespace c (&&-eq-true (is_graphic c) _ h).0) (trim_end-graphic (c ∷ cs) h)

-- The text of an id is parsed back as that id.
pub parse_id-display :
    (u : UuidText) (id : DeviceId) → id < 2 ^ 128 → parse_id u (u.display id) ≡ some id
unfolding parse_id
parse_id-display u id h =
    rw (parse_id, trim-graphic (u.display id) (u.display-graphic id)) (u.parse_str-display id h)
