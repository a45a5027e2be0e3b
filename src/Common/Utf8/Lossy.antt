-- ===== src/Common/Utf8/Lossy.antt =====
-- `String::from_utf8_lossy`: a maximal part of a character that is cut short, and each byte that starts none, gives
-- one replacement character.
use Prim.Native.Nat.{ℕ, zero, suc, ◌+◌, ◌-◌, ◌*◌}
use mathlib.Core.Bool.{true, ◌&&◌}
use mathlib.Core.List.{List, [], ◌∷◌, ◌++◌}
use mathlib.Core.Path.{◌≡◌, refl}
use native.Mathlib.Omega.{arith}
use cled.Common.Lists.{all}
use cled.Common.Tests.{ltb, leb, if◌then◌else◌, ◌==◌, nat_eq}

-- What the next byte has to be, while a character has begun.
pub record Waiting : Type 0 where
  pub needed : ℕ
  pub bits : ℕ
  pub low : ℕ
  pub high : ℕ

abbrev pub start : Waiting
start = record { needed = 0; bits = 0; low = 0; high = 0 }

abbrev waiting : ℕ → ℕ → ℕ → ℕ → Waiting
waiting needed bits low high = record { needed = needed; bits = bits; low = low; high = high }

abbrev replacement : ℕ
replacement = 0xfffd

-- A byte that no character waits for: what it gives, and what is waited for then.
unfoldable pub lead : ℕ → List ℕ × Waiting
lead b =
    if ltb b 0x80
    then (b ∷ [], start)
    else if ltb b 0xc2
    then (replacement ∷ [], start)
    else if ltb b 0xe0
    then ([], waiting 1 (b - 0xc0) 0x80 0xbf)
    else if ltb b 0xf0
    then (
      [],
      waiting 2 (b - 0xe0) (if b == 0xe0 then 0xa0 else 0x80) (if b == 0xed then 0x9f else 0xbf),
    )
    else if ltb b 0xf5
    then (
      [],
      waiting 3 (b - 0xf0) (if b == 0xf0 then 0x90 else 0x80) (if b == 0xf4 then 0x8f else 0xbf),
    )
    else (replacement ∷ [], start)

abbrev continued : ℕ → ℕ → List ℕ × Waiting
continued zero bits = (bits ∷ [], start)
continued (suc n) bits = ([], waiting (suc n) bits 0x80 0xbf)

unfoldable pub lossy_step : Waiting → ℕ → List ℕ × Waiting
lossy_step w b = elim w.needed [
  | zero ↦ lead b
  | suc n ↦
      let fresh = lead b in
      if leb w.low b && leb b w.high
      then continued n (w.bits * 64 + (b - 0x80))
      else (replacement ∷ fresh.0, fresh.1)
]

unfoldable pub lossy_loop : Waiting → List ℕ → List ℕ
lossy_loop w [] = if ltb 0 w.needed then replacement ∷ [] else []
lossy_loop w (b ∷ bs) = let out = lossy_step w b in out.0 ++ lossy_loop out.1 bs

unfoldable pub from_utf8_lossy : List ℕ → List ℕ
from_utf8_lossy = lossy_loop start

-- ASCII text at the front stays as it is.
pub from_utf8_lossy-ascii :
    (t bs : List ℕ)
    → all (λ c. ltb c 0x80) t ≡ true
    → from_utf8_lossy (t ++ bs) ≡ t ++ from_utf8_lossy bs
unfolding from_utf8_lossy lossy_loop lossy_step lead
from_utf8_lossy-ascii [] bs h = refl
from_utf8_lossy-ascii (c ∷ cs) bs h = ground (arith, from_utf8_lossy-ascii cs bs)
