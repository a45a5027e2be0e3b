-- ===== src/Lan/Code.antt =====
-- crates/cled-lan/src/code.rs: pairing codes. The random bytes are an argument.
pub mod Typing
pub mod Uniform
use cled.Common.{
  List, [], all, contains, drop, if◌then◌else◌, leb, length, map, nat_eq, not, retain, suc, take,
  zero, ℕ, ◌%◌, ◌&&◌, ◌*◌, ◌++◌, ◌+◌, ◌-◌, ◌/◌, ◌==◌, ◌^◌, ◌||◌, ◌∷◌,
}
use cled.Clipboard.Content.{Chars, is_whitespace}
use cled.Lan.Error.{Result, ok, err, wrong_code}

-- The 32 characters, without I, L, O and U.
abbrev pub alphabet : List ℕ
alphabet =
    b'0' ∷ b'1' ∷ b'2' ∷ b'3' ∷ b'4' ∷ b'5' ∷ b'6' ∷ b'7' ∷ b'8' ∷ b'9' ∷ b'A' ∷ b'B' ∷ b'C' ∷ b'D'
    ∷ b'E' ∷ b'F' ∷ b'G' ∷ b'H' ∷ b'J' ∷ b'K' ∷ b'M' ∷ b'N' ∷ b'P' ∷ b'Q' ∷ b'R' ∷ b'S' ∷ b'T'
    ∷ b'V' ∷ b'W' ∷ b'X' ∷ b'Y' ∷ b'Z' ∷ []

abbrev pub len : ℕ
len = 8

-- The characters of a code.
abbrev pub PairingCode : Type 0
PairingCode = Chars

-- `fold(0, |acc, b| (acc << 8) | b)` on bytes.
unfoldable pub fold_bits : ℕ → List ℕ → ℕ
fold_bits acc [] = acc
fold_bits acc (b ∷ bs) = fold_bits (acc * 256 + b) bs

abbrev pub nth : List ℕ → ℕ → ℕ
nth [] i = 0
nth (x ∷ xs) zero = x
nth (x ∷ xs) (suc i) = nth xs i

-- The characters for the groups of five bits, from the group `n - 1` down to the group 0.
unfoldable pub digits : ℕ → ℕ → Chars
digits bits zero = []
digits bits (suc i) = nth alphabet (bits / 2 ^ (i * 5) % 32) ∷ digits bits i

-- `PairingCode::generate`, for the five random bytes or the error of the system.
unfoldable pub generate : Result (List ℕ) → Result PairingCode
generate (err e) = err e
generate (ok bytes) = ok (digits (fold_bits 0 bytes) len)

-- `char::to_ascii_uppercase`.
unfoldable pub to_ascii_uppercase : ℕ → ℕ
to_ascii_uppercase c = if leb b'a' c && leb c b'z' then c - 32 else c

-- What a typed character stands for: I and L for 1, O for 0.
unfoldable pub corrected : ℕ → ℕ
corrected c =
    let upper = to_ascii_uppercase c in
    if upper == b'I' || upper == b'L' then b'1' else if upper == b'O' then b'0' else upper

unfoldable pub canonical : Chars → Chars
canonical input = map corrected (retain (λ c. not (is_whitespace c) && not (c == b'-')) input)

-- `PairingCode::parse`. A character of the alphabet has one byte, so a code of eight characters has
-- eight bytes, and one with any other character is refused whatever its length.
unfoldable pub parse : Chars → Result PairingCode
parse input =
    let code = canonical input in
    if not (length code == len) || not (all (contains alphabet) code)
    then err wrong_code
    else ok code

-- `Display`: the two halves with a dash between them.
unfoldable pub display : PairingCode → Chars
display code = take 4 code ++ b'-' ∷ drop 4 code
