-- ===== src/Common/Bytes.antt =====
-- Machine integers as bytes: `to_be_bytes`, `from_be_bytes` and the little-endian pair.
use Prim.Native.Nat.{ℕ, zero, suc, ◌+◌, ◌*◌, ◌/◌, ◌%◌, ◌^◌, ◌<◌}
use mathlib.Core.List.{List, [], ◌∷◌, ◌++◌, reverse, reverse-reverse, reverse-cons}
use mathlib.Core.Path.{◌≡◌, refl, sym, ap, subst, ◌∙◌}
use native.Mathlib.Nat.{pow-suc}
use native.Mathlib.Omega.{arith}
use cled.Common.Lists.{length}

-- Every byte of the list is below 256.
abbrev pub AreBytes : List ℕ → Type 0
AreBytes [] = Unit {0}
AreBytes (b ∷ bs) = (b < 256) × AreBytes bs

-- The lowest byte first.
unfoldable pub to_le_bytes : ℕ → ℕ → List ℕ
to_le_bytes zero n = []
to_le_bytes (suc w) n = (n % 256) ∷ to_le_bytes w (n / 256)

unfoldable pub from_le_bytes : List ℕ → ℕ
from_le_bytes [] = 0
from_le_bytes (b ∷ bs) = b + 256 * from_le_bytes bs

pub length-to_le_bytes : (w n : ℕ) → length (to_le_bytes w n) ≡ w
unfolding to_le_bytes
length-to_le_bytes zero n = refl
length-to_le_bytes (suc w) n = ap suc (length-to_le_bytes w (n / 256))

to_le_bytes-AreBytes : (w n : ℕ) → AreBytes (to_le_bytes w n)
unfolding to_le_bytes
to_le_bytes-AreBytes zero n = tt
to_le_bytes-AreBytes (suc w) n = (omega arith, to_le_bytes-AreBytes w (n / 256))

pow_step : (w n : ℕ) → n < 256 ^ suc w → n / 256 < 256 ^ w
pow_step w n h = omega (arith, pow-suc 256 w)

pub from_le_bytes-to_le_bytes : (w n : ℕ) → n < 256 ^ w → from_le_bytes (to_le_bytes w n) ≡ n
unfolding to_le_bytes from_le_bytes
from_le_bytes-to_le_bytes zero n h = omega arith
from_le_bytes-to_le_bytes (suc w) n h =
    omega (arith, from_le_bytes-to_le_bytes w (n / 256) (pow_step w n h))

unfoldable pub to_be_bytes : ℕ → ℕ → List ℕ
to_be_bytes w n = reverse (to_le_bytes w n)

unfoldable pub from_be_bytes : List ℕ → ℕ
from_be_bytes bs = from_le_bytes (reverse bs)

pub from_be_bytes-to_be_bytes : (w n : ℕ) → n < 256 ^ w → from_be_bytes (to_be_bytes w n) ≡ n
unfolding to_be_bytes from_be_bytes
from_be_bytes-to_be_bytes w n h =
    ap from_le_bytes (reverse-reverse (to_le_bytes w n)) ∙ from_le_bytes-to_le_bytes w n h

AreBytes-append : (xs ys : List ℕ) → AreBytes xs → AreBytes ys → AreBytes (xs ++ ys)
AreBytes-append [] ys hx hy = hy
AreBytes-append (x ∷ xs) ys hx hy = (hx.0, AreBytes-append xs ys hx.1 hy)

AreBytes-reverse : (xs : List ℕ) → AreBytes xs → AreBytes (reverse xs)
AreBytes-reverse [] h = tt
AreBytes-reverse (x ∷ xs) h =
    subst AreBytes (sym (reverse-cons x xs))
      (AreBytes-append (reverse xs) (x ∷ []) (AreBytes-reverse xs h.1) (h.0, tt))

pub to_be_bytes-AreBytes : (w n : ℕ) → AreBytes (to_be_bytes w n)
unfolding to_be_bytes
to_be_bytes-AreBytes w n = AreBytes-reverse (to_le_bytes w n) (to_le_bytes-AreBytes w n)
