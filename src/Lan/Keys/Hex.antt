-- ===== src/Lan/Keys/Hex.antt =====
-- crates/cled-lan/src/keys.rs: what is written is read back.
use cled.Common.{
  Bool-cases, List, [], ap, arith, drop-append_at, false, inl, inr, length, length-append, nat_eq,
  nat_eq_iff, refl, some, subst, take-append_at, true, ℕ, ◌%◌, ◌*◌, ◌++◌, ◌/◌, ◌<◌, ◌==◌, ◌∙◌, ◌∷◌,
  ◌≡◌,
}
use cled.Lan.Error.{Result, ok, err, Ensures, >>=-Ensures}
use cled.Common.Bytes.{AreBytes}
use cled.Lan.Keys.{
  hex_digit, hex, to_digit, from_str_radix, from_hex, load_or_create, parse_keys, generate, Keys,
  to_key, key_len, Written, contents, not_found, written, create, write_keys,
}

to_digit-hex_digit : (d : ℕ) → d < 16 → to_digit (hex_digit d) ≡ some d
unfolding to_digit
to_digit-hex_digit d h = ground arith

not_plus : (d : ℕ) → d < 16 → (hex_digit d == b'+') ≡ false
not_plus d h = ground arith

from_str_radix-hex_digit :
    (b : ℕ) → b < 256 → from_str_radix (hex_digit (b / 16)) (hex_digit (b % 16)) ≡ some b
unfolding from_str_radix
from_str_radix-hex_digit b h = ground (
  arith,
  to_digit-hex_digit (b / 16) (omega arith),
  to_digit-hex_digit (b % 16) (omega arith),
  not_plus (b / 16) (omega arith),
)

-- The hexadecimal form of bytes is read back as those bytes.
pub from_hex-hex : (bytes : List ℕ) → AreBytes bytes → from_hex (hex bytes) ≡ some bytes
unfolding from_hex hex
from_hex-hex [] h = refl
from_hex-hex (b ∷ bs) h =
    rw (from_hex, hex, from_str_radix-hex_digit b h.0, from_hex-hex bs h.1) refl

-- A pair of keys of the right length.
abbrev HasLengths : Keys → Type 0
HasLengths k = (length k.private ≡ key_len) × (length k.public ≡ key_len)

to_key-Ensures : (bytes : List ℕ) → Ensures (λ k. (length k ≡ key_len) × (k ≡ bytes)) (to_key bytes)
unfolding to_key
to_key-Ensures bytes = elim (Bool-cases (length bytes == key_len)) [
  | inl fits ↦ rw (to_key, fits) ((nat_eq_iff _ _).0 fits, refl)
  | inr other ↦ rw (to_key, other) tt
]

pub to_key-ok : (bytes : List ℕ) → length bytes ≡ key_len → to_key bytes ≡ ok bytes
unfolding to_key
to_key-ok bytes h = rw (to_key, (nat_eq_iff (length bytes) key_len).1 h) refl

generate-Ensures : (pair : Result Keys) → Ensures HasLengths (generate pair)
unfolding generate
generate-Ensures (err e) = tt
generate-Ensures (ok k) =
    >>=-Ensures _ HasLengths (to_key k.private) _ (to_key-Ensures k.private) (λ private p.
      >>=-Ensures _ HasLengths (to_key k.public) _ (to_key-Ensures k.public)
        (λ public q. (p.0, q.0)))

parse_keys-append :
    (private public : List ℕ)
    → length private ≡ key_len
    → length public ≡ key_len
    → parse_keys (private ++ public) ≡ ok (record { private = private; public = public })
unfolding parse_keys
parse_keys-append private public hp hq =
    rw
      (
        parse_keys,
        take-append_at key_len private public hp,
        drop-append_at key_len private public hp,
        to_key-ok private hp,
        to_key-ok public hq,
      )
      refl

load_or_create-contents :
    (k : Keys) (pair : Result Keys) (w : Written)
    → HasLengths k
    → load_or_create (contents (k.private ++ k.public)) pair w
      ≡ (contents (k.private ++ k.public), ok k)
unfolding load_or_create
load_or_create-contents k pair w h =
    let fits : (length (k.private ++ k.public) == 2 * key_len) ≡ true =
      ground (arith, h, length-append k.private k.public) in
    rw (load_or_create, fits, parse_keys-append k.private k.public h.0 h.1) refl

-- Keys that a device creates because it has none, if they can be written, are the ones it loads from then
-- on, whatever is generated then.
load_or_create_again :
    (pair : Result Keys) (k : Keys) (other : Result Keys) (w : Written)
    → generate pair ≡ ok k
    → (load_or_create not_found pair written ≡ (contents (k.private ++ k.public), ok k))
      × (load_or_create (load_or_create not_found pair written).0 other w
          ≡ (contents (k.private ++ k.public), ok k))
unfolding load_or_create create write_keys
load_or_create_again pair k other w h = (
  first,
  ap (λ f. load_or_create f other w) (ap (λ r. r.0) first)
      ∙ load_or_create-contents k other w (subst (Ensures HasLengths) h (generate-Ensures pair)),
)
  where
    first : load_or_create not_found pair written ≡ (contents (k.private ++ k.public), ok k)
    first = ap (λ p. create not_found p written) h
