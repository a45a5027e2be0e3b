-- ===== src/Common/Utf8.antt =====
-- UTF-8: `str::as_bytes`, from a list of characters, and `std::str::from_utf8`, back to one.
pub mod RoundTrip
pub mod Lossy
use Prim.Native.Nat.{ℕ, zero, suc, ◌+◌, ◌-◌, ◌*◌, ◌/◌, ◌%◌}
use Prim.Native.Char.{code}
use Prim.Native.String.{String}
use mathlib.Core.Bool.{Bool, true, ◌&&◌, ◌||◌}
use mathlib.Core.List.{List, [], ◌∷◌, ◌++◌}
use mathlib.Core.Option.{Option, none, some}
use mathlib.Core.Path.{◌≡◌, refl}
use native.Mathlib.Omega.{arith}
use cled.Common.Lists.{all}
use cled.Common.Tests.{ltb, leb, if◌then◌else◌}

-- The characters of a text in the source.
abbrev pub codes : String → List ℕ
codes String.[] = []
codes (String.◌∷◌ c s) = code c ∷ codes s

unfoldable pub encode_utf8 : ℕ → List ℕ
encode_utf8 c =
    if ltb c 0x80
    then c ∷ []
    else if ltb c 0x800
    then (0xc0 + c / 64) ∷ (0x80 + c % 64) ∷ []
    else if ltb c 0x10000
    then (0xe0 + c / 4096) ∷ (0x80 + c / 64 % 64) ∷ (0x80 + c % 64) ∷ []
    else (0xf0 + c / 262144) ∷ (0x80 + c / 4096 % 64) ∷ (0x80 + c / 64 % 64) ∷ (0x80 + c % 64) ∷ []

unfoldable pub as_bytes : List ℕ → List ℕ
as_bytes [] = []
as_bytes (c ∷ cs) = encode_utf8 c ++ as_bytes cs

-- What is left of a character: how many bytes, the bits so far, and the least value of its length.
pub record Partial : Type 0 where
  pub needed : ℕ
  pub bits : ℕ
  pub least : ℕ

abbrev pub between : Partial
between = record { needed = 0; bits = 0; least = 0 }

abbrev pub is_char : ℕ → Bool
is_char c = (ltb c 0xd800 || leb 0xe000 c) && ltb c 0x110000

-- One byte of the input: an error, or the character it completes and what is left then.
unfoldable pub utf8_step : Partial → ℕ → Option (Option ℕ × Partial)
utf8_step p b = elim p.needed [
  | zero ↦
      if ltb b 0x80
      then some (some b, between)
      else if ltb b 0xc2
      then none
      else if ltb b 0xe0
      then some (none, record { needed = 1; bits = b - 0xc0; least = 0x80 })
      else if ltb b 0xf0
      then some (none, record { needed = 2; bits = b - 0xe0; least = 0x800 })
      else if ltb b 0xf5
      then some (none, record { needed = 3; bits = b - 0xf0; least = 0x10000 })
      else none
  | suc n ↦
      let bits = p.bits * 64 + (b - 0x80) in
      if leb 0x80 b && ltb b 0xc0
      then if ltb 0 n
        then some (none, record { needed = n; bits = bits; least = p.least })
        else if leb p.least bits && is_char bits
        then some (some bits, between)
        else none
      else none
]

abbrev pub push : Option ℕ → Option (List ℕ) → Option (List ℕ)
push o none = none
push none (some cs) = some cs
push (some c) (some cs) = some (c ∷ cs)

unfoldable pub utf8_loop : Partial → List ℕ → Option (List ℕ)
utf8_loop p [] = if ltb 0 p.needed then none else some []
utf8_loop p (b ∷ bs) = elim (utf8_step p b) [ none ↦ none | some (c, q) ↦ push c (utf8_loop q bs) ]

-- `std::str::from_utf8`.
unfoldable pub from_utf8 : List ℕ → Option (List ℕ)
from_utf8 = utf8_loop between

-- ASCII text is its own encoding.
pub as_bytes-ascii : (t : List ℕ) → all (λ c. ltb c 0x80) t ≡ true → as_bytes t ≡ t
unfolding as_bytes encode_utf8
as_bytes-ascii [] h = refl
as_bytes-ascii (c ∷ cs) h = ground (arith, as_bytes-ascii cs)

pub from_utf8-ascii : (t : List ℕ) → all (λ c. ltb c 0x80) t ≡ true → from_utf8 t ≡ some t
unfolding from_utf8 utf8_loop utf8_step
from_utf8-ascii [] h = refl
from_utf8-ascii (c ∷ cs) h = ground (arith, from_utf8-ascii cs)
