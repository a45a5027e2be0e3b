-- ===== src/Clipboard/Content.antt =====
-- crates/cled-clipboard/src/content.rs: text, images, and what identifies them. A text is the
-- list of its characters' code points; `usize` has 64 bits.
pub mod Lines
pub mod Trim
use cled.Common.{
  Bool, List, Option, [], contains, false, if◌then◌else◌, leb, length, ltb, nat_eq, none, some,
  true, ℕ, ◌&&◌, ◌*◌, ◌==◌, ◌^◌, ◌||◌, ◌∷◌,
}

-- A `String`: its characters.
abbrev pub Chars : Type 0
Chars = List ℕ

pub record Image : Type 0 where
  pub width : ℕ
  pub height : ℕ
  pub rgba : List ℕ

pub data ClipboardContent : Type 0 where
  text : Chars → ClipboardContent
  image : Image → ClipboardContent

-- `str::replace("\r\n", "\n")`.
unfoldable pub replace_crlf : Chars → Chars
replace_crlf [] = []
replace_crlf (c ∷ []) = c ∷ []
replace_crlf (c ∷ d ∷ cs) = elim (c == 13 && d == 10) [
  | true ↦ 10 ∷ replace_crlf cs
  | false ↦ c ∷ replace_crlf (d ∷ cs)
]

-- `str::replace('\r', "\n")`.
unfoldable pub replace_cr : Chars → Chars
replace_cr [] = []
replace_cr (c ∷ cs) = (if c == 13 then 10 else c) ∷ replace_cr cs

unfoldable pub normalize_line_endings : Chars → Chars
normalize_line_endings t = if contains t 13 then replace_cr (replace_crlf t) else t

-- `ClipboardContent::text`.
unfoldable pub new_text : Chars → ClipboardContent
new_text t = text (normalize_line_endings t)

-- `char::is_whitespace`: the characters with Unicode's White_Space property.
unfoldable pub is_whitespace : ℕ → Bool
is_whitespace c =
    (leb 9 c && leb c 13)
    || c == 32
    || c == 0x85
    || c == 0xa0
    || c == 0x1680
    || (leb 0x2000 c && leb c 0x200a)
    || c == 0x2028
    || c == 0x2029
    || c == 0x202f
    || c == 0x205f
    || c == 0x3000

-- The character before a trimmed end: kept unless it is whitespace at the end itself.
abbrev pub keep : ℕ → Chars → Chars
keep c [] = if is_whitespace c then [] else c ∷ []
keep c (d ∷ ds) = c ∷ d ∷ ds

-- `str::trim_end`.
unfoldable pub trim_end : Chars → Chars
trim_end [] = []
trim_end (c ∷ cs) = keep c (trim_end cs)

unfoldable pub identity_text : Chars → Chars
identity_text t = trim_end t

abbrev usize_mod : ℕ
usize_mod = 2 ^ 64

-- `usize::checked_mul`.
abbrev checked_mul : ℕ → ℕ → Option ℕ
checked_mul a b = if ltb (a * b) usize_mod then some (a * b) else none

unfoldable pub rgba_len : ℕ → ℕ → Option ℕ
rgba_len width height = elim (checked_mul width height) [
  | none ↦ none
  | some pixels ↦ checked_mul pixels 4
]

-- `Image::from_rgba`.
unfoldable pub from_rgba : ℕ → ℕ → List ℕ → Option Image
unfolding rgba_len
from_rgba width height rgba = elim (rgba_len width height) [
  | none ↦ none
  | some len ↦
      if length rgba == len
      then some (record { width = width; height = height; rgba = rgba })
      else none
]
