-- ===== src/Lan/Keys.antt =====
-- crates/cled-lan/src/keys.rs: the hexadecimal form of keys, and the file of this device's key pair. A key is
-- the list of its bytes here, and a text the list of its UTF-8 bytes.
pub mod Hex
use cled.Common.{
  List, Option, [], drop, if◌then◌else◌, leb, length, ltb, nat_eq, none, some, take, ℕ, ◌%◌, ◌&&◌,
  ◌*◌, ◌++◌, ◌+◌, ◌-◌, ◌/◌, ◌==◌, ◌∷◌,
}
use cled.Lan.Error.{Result, ok, err, malformed, io, ◌>>=◌}

abbrev pub key_len : ℕ
key_len = 32

pub record Keys : Type 0 where
  pub private : List ℕ
  pub public : List ℕ

-- `to_key`.
unfoldable pub to_key : List ℕ → Result (List ℕ)
to_key bytes = if length bytes == key_len then ok bytes else err malformed

-- `Keys::generate`, of what the crate snow generates.
unfoldable pub generate : Result Keys → Result Keys
generate pair = pair >>= λ k. to_key k.private >>= λ private.
    to_key k.public >>= λ public. ok (record { private = private; public = public })

-- A digit of `{:02x}`.
abbrev pub hex_digit : ℕ → ℕ
hex_digit d = if ltb d 10 then b'0' + d else b'a' + (d - 10)

unfoldable pub hex : List ℕ → List ℕ
hex [] = []
hex (b ∷ bs) = hex_digit (b / 16) ∷ hex_digit (b % 16) ∷ hex bs

-- `char::to_digit(16)`.
unfoldable pub to_digit : ℕ → Option ℕ
to_digit c =
    if leb b'0' c && leb c b'9'
    then some (c - b'0')
    else if leb b'a' c && leb c b'f'
    then some (c - b'a' + 10)
    else if leb b'A' c && leb c b'F'
    then some (c - b'A' + 10)
    else none

abbrev two_digits : Option ℕ → Option ℕ → Option ℕ
two_digits (some a) (some b) = some (a * 16 + b)
two_digits _ _ = none

-- `u8::from_str_radix(…, 16)` of two bytes, which may be a plus sign and a digit.
unfoldable pub from_str_radix : ℕ → ℕ → Option ℕ
from_str_radix a b = if a == b'+' then to_digit b else two_digits (to_digit a) (to_digit b)

abbrev cons_both : Option ℕ → Option (List ℕ) → Option (List ℕ)
cons_both (some b) (some bs) = some (b ∷ bs)
cons_both _ _ = none

-- `from_hex`. Bytes that are not ASCII are no digits, and an odd length is refused.
unfoldable pub from_hex : List ℕ → Option (List ℕ)
from_hex [] = some []
from_hex (a ∷ []) = none
from_hex (a ∷ b ∷ text) = cons_both (from_str_radix a b) (from_hex text)

-- What reading the key file gives.
pub data KeyFile : Type 0 where
  contents : List ℕ → KeyFile
  not_found : KeyFile
  unreadable : KeyFile

-- The first failure of creating the directory, the file, and writing the two keys, and what the file
-- holds then.
pub data Written : Type 0 where
  written : Written
  failed_with : KeyFile → Written

unfoldable pub write_keys : KeyFile → Keys → Written → KeyFile × Result Keys
write_keys file keys written = (contents (keys.private ++ keys.public), ok keys)
write_keys file keys (failed_with left) = (left, err io)

unfoldable pub create : KeyFile → Result Keys → Written → KeyFile × Result Keys
create file (ok keys) w = write_keys file keys w
create file (err e) w = (file, err e)

-- The two halves of the file.
unfoldable pub parse_keys : List ℕ → Result Keys
parse_keys bytes = to_key (take key_len bytes) >>= λ private.
    to_key (drop key_len bytes) >>= λ public. ok (record { private = private; public = public })

-- `Keys::load_or_create`, with the file after it.
unfoldable pub load_or_create : KeyFile → Result Keys → Written → KeyFile × Result Keys
load_or_create (contents bytes) pair w =
    if length bytes == 2 * key_len
    then (contents bytes, parse_keys bytes)
    else create (contents bytes) (generate pair) w
load_or_create not_found pair w = create not_found (generate pair) w
load_or_create unreadable pair w = (unreadable, err io)
