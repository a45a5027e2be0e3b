-- ===== src/Common/Utf8/RoundTrip.antt =====
-- A text is read back from its UTF-8 form.
use Prim.Native.Nat.{ℕ, suc, ◌+◌, ◌*◌, ◌/◌, ◌%◌, ◌<◌, ◌≤◌}
use mathlib.Core.Bool.{true}
use mathlib.Core.List.{List, [], ◌∷◌, ◌++◌}
use mathlib.Core.Logic.{inl, inr}
use mathlib.Core.Option.{Option, none, some}
use mathlib.Core.Path.{◌≡◌, refl, ap, ◌∙◌}
use native.Mathlib.Omega.{arith}
use cled.Common.Lists.{all}
use cled.Common.Tests.{ltb, Bool-cases, &&-eq-true}
use cled.Common.Utf8.{
  encode_utf8, as_bytes, Partial, between, is_char, utf8_step, push, utf8_loop, from_utf8,
}

abbrev left : ℕ → ℕ → ℕ → Partial
left needed bits least = record { needed = needed; bits = bits; least = least }

single : (c : ℕ) → c < 0x80 → utf8_step between c ≡ some (some c, between)
unfolding utf8_step
single c h = ground arith

lead_two : (q : ℕ) → 2 ≤ q → q < 32 → utf8_step between (0xc0 + q) ≡ some (none, left 1 q 0x80)
unfolding utf8_step
lead_two q l h = ground arith

lead_three : (q : ℕ) → q < 16 → utf8_step between (0xe0 + q) ≡ some (none, left 2 q 0x800)
unfolding utf8_step
lead_three q h = ground arith

lead_four : (q : ℕ) → q < 5 → utf8_step between (0xf0 + q) ≡ some (none, left 3 q 0x10000)
unfolding utf8_step
lead_four q h = ground arith

inner :
    (n bits least d : ℕ)
    → d < 64
    → utf8_step (left (suc (suc n)) bits least) (0x80 + d)
      ≡ some (none, left (suc n) (bits * 64 + d) least)
unfolding utf8_step
inner n bits least d h = ground arith

final :
    (bits least d c : ℕ)
    → d < 64
    → bits * 64 + d ≡ c
    → least ≤ c
    → is_char c ≡ true
    → utf8_step (left 1 bits least) (0x80 + d) ≡ some (some c, between)
unfolding utf8_step
final bits least d c h e l k = ground arith

-- A step that is known.
loop_step :
    (p : Partial) (b : ℕ) (bs : List ℕ) (o : Option ℕ) (q : Partial)
    → utf8_step p b ≡ some (o, q)
    → utf8_loop p (b ∷ bs) ≡ push o (utf8_loop q bs)
unfolding utf8_loop
loop_step p b bs o q h = rw (utf8_loop, h) refl

push-none : (o : Option (List ℕ)) → push none o ≡ o
push-none none = refl
push-none (some cs) = refl

module _ (c : ℕ) (k : is_char c ≡ true) (bs : List ℕ) where
  abbrev IsRead : List ℕ → Type 0
  IsRead bytes = utf8_loop between (bytes ++ bs) ≡ push (some c) (utf8_loop between bs)

  two_bytes : 0x80 ≤ c → c < 0x800 → IsRead ((0xc0 + c / 64) ∷ (0x80 + c % 64) ∷ [])
  two_bytes l h =
      loop_step between (0xc0 + c / 64) _ none _ (lead_two (c / 64) (omega arith) (omega arith))
      ∙ push-none _
      ∙ loop_step (left 1 (c / 64) 0x80) (0x80 + c % 64) bs (some c) between
          (final (c / 64) 0x80 (c % 64) c (omega arith) (omega arith) l k)

  three_bytes :
      0x800 ≤ c
      → c < 0x10000
      → IsRead ((0xe0 + c / 4096) ∷ (0x80 + c / 64 % 64) ∷ (0x80 + c % 64) ∷ [])
  three_bytes l h =
      loop_step between (0xe0 + c / 4096) _ none _ (lead_three (c / 4096) (omega arith))
      ∙ push-none _
      ∙ loop_step (left 2 (c / 4096) 0x800) (0x80 + c / 64 % 64) _ none _
          (inner 0 (c / 4096) 0x800 (c / 64 % 64) (omega arith))
      ∙ push-none _
      ∙ loop_step (left 1 (c / 4096 * 64 + c / 64 % 64) 0x800) (0x80 + c % 64) bs (some c) between
          (final (c / 4096 * 64 + c / 64 % 64) 0x800 (c % 64) c (omega arith) (omega arith) l k)

  four_bytes :
      0x10000 ≤ c
      → IsRead (
          (0xf0 + c / 262144)
          ∷ (0x80 + c / 4096 % 64)
          ∷ (0x80 + c / 64 % 64)
          ∷ (0x80 + c % 64)
          ∷ [])
  four_bytes l =
      loop_step between (0xf0 + c / 262144) _ none _ (lead_four (c / 262144) (ground (arith, k)))
      ∙ push-none _
      ∙ loop_step (left 3 (c / 262144) 0x10000) (0x80 + c / 4096 % 64) _ none _
          (inner 1 (c / 262144) 0x10000 (c / 4096 % 64) (omega arith))
      ∙ push-none _
      ∙ loop_step (left 2 (c / 262144 * 64 + c / 4096 % 64) 0x10000) (0x80 + c / 64 % 64) _ none _
          (inner 0 (c / 262144 * 64 + c / 4096 % 64) 0x10000 (c / 64 % 64) (omega arith))
      ∙ push-none _
      ∙ loop_step (left 1 ((c / 262144 * 64 + c / 4096 % 64) * 64 + c / 64 % 64) 0x10000)
          (0x80 + c % 64) bs (some c) between
          (final ((c / 262144 * 64 + c / 4096 % 64) * 64 + c / 64 % 64) 0x10000 (c % 64) c
            (omega arith) (omega arith) l k)

  encode_utf8-IsRead : IsRead (encode_utf8 c)
  unfolding encode_utf8
  encode_utf8-IsRead = elim (Bool-cases (ltb c 0x80)) [
    | inl one ↦
        rw (encode_utf8, one)
          (loop_step between c bs (some c) between (single c (ground (arith, one))))
    | inr more ↦ elim (Bool-cases (ltb c 0x800)) [
      | inl two ↦
          rw (encode_utf8, more, two) (two_bytes (ground (arith, more)) (ground (arith, two)))
      | inr more' ↦ elim (Bool-cases (ltb c 0x10000)) [
        | inl three ↦
            rw (encode_utf8, more, more', three)
              (three_bytes (ground (arith, more')) (ground (arith, three)))
        | inr four ↦ rw (encode_utf8, more, more', four) (four_bytes (ground (arith, four)))
      ]
    ]
  ]

-- Any text of Unicode characters is read back from its UTF-8 form.
pub from_utf8-as_bytes : (t : List ℕ) → all is_char t ≡ true → from_utf8 (as_bytes t) ≡ some t
unfolding from_utf8 as_bytes
from_utf8-as_bytes [] h = unfold utf8_loop in refl
from_utf8-as_bytes (c ∷ cs) h =
    let (first, rest) = &&-eq-true (is_char c) _ h in
    encode_utf8-IsRead c first (as_bytes cs) ∙ ap (push (some c)) (from_utf8-as_bytes cs rest)
