-- ===== src/Lan/Code/Uniform.antt =====
-- Which codes `PairingCode::generate` of crates/cled-lan/src/code.rs makes, and how often.
use cled.Common.{
  &&-eq-true, List, [], all, all-contains, ap, arith, contains, if◌then◌else◌, length, ltb, nat_eq,
  nat_eq_iff, refl, suc, sym, true, zero, ℕ, ◌%◌, ◌&&◌, ◌*◌, ◌+◌, ◌/◌, ◌<◌, ◌==◌, ◌^◌, ◌↔◌, ◌∙◌,
  ◌∷◌, ◌≡◌,
}
use cled.Lan.Error.{ok, ok_injective}
use cled.Lan.Code.Typing.{IsCode}
use cled.Common.Bytes.{AreBytes}
use cled.Clipboard.Content.{Chars}
use cled.Lan.Code.{alphabet, nth, digits, fold_bits, generate, PairingCode}

-- The place of a character in the alphabet.
abbrev place_in : List ℕ → ℕ → ℕ
place_in [] c = 0
place_in (x ∷ xs) c = if x == c then 0 else suc (place_in xs c)

place : ℕ → ℕ
place = place_in alphabet

abbrev numbers : ℕ → List ℕ
numbers zero = []
numbers (suc n) = n ∷ numbers n

-- The two are inverse to each other, which is checked for each.
placed : all (λ c. nth alphabet (place c) == c && ltb (place c) 32) alphabet ≡ true
unfolding place
placed = refl

named : all (λ i. place (nth alphabet i) == i) (numbers 32) ≡ true
unfolding place
named = refl

contains-numbers : (n i : ℕ) → i < n → contains (numbers n) i ≡ true
contains-numbers zero i h = absurd (omega arith)
contains-numbers (suc n) i h = ground (arith, contains-numbers n i)

place-nth : (i : ℕ) → i < 32 → place (nth alphabet i) ≡ i
place-nth i h =
    (nat_eq_iff (place (nth alphabet i)) i).0 (
      all-contains (λ i. place (nth alphabet i) == i) (numbers 32) i named
        (contains-numbers 32 i h))

nth-place : (c : ℕ) → contains alphabet c ≡ true → (nth alphabet (place c) ≡ c) × (place c < 32)
nth-place c h =
    let (same, small) =
      &&-eq-true (nth alphabet (place c) == c) _
        (all-contains (λ c. nth alphabet (place c) == c && ltb (place c) 32) alphabet c placed h) in
    ((nat_eq_iff (nth alphabet (place c)) c).0 same, ground (arith, small))

-- The number that the characters spell.
value : Chars → ℕ → ℕ
value [] acc = acc
value (c ∷ cs) acc = value cs (acc * 32 + place c)

value-digits : (bits : ℕ) → bits < 2 ^ 40 → value (digits bits 8) 0 ≡ bits
unfolding value digits
value-digits bits h = omega (
  arith,
  place-nth (bits / 2 ^ 35 % 32) (omega arith),
  place-nth (bits / 2 ^ 30 % 32) (omega arith),
  place-nth (bits / 2 ^ 25 % 32) (omega arith),
  place-nth (bits / 2 ^ 20 % 32) (omega arith),
  place-nth (bits / 2 ^ 15 % 32) (omega arith),
  place-nth (bits / 2 ^ 10 % 32) (omega arith),
  place-nth (bits / 2 ^ 5 % 32) (omega arith),
  place-nth (bits / 2 ^ 0 % 32) (omega arith),
)

-- Five random bytes.
abbrev pub IsRandom : List ℕ → Type 0
IsRandom bytes = (length bytes ≡ 5) × AreBytes bytes

bytes_of : ℕ → List ℕ
bytes_of n = n / 2 ^ 32 ∷ n / 2 ^ 24 % 256 ∷ n / 2 ^ 16 % 256 ∷ n / 2 ^ 8 % 256 ∷ n % 256 ∷ []

five :
    {a b c d e a' b' c' d' e' : ℕ}
    → a ≡ a'
    → b ≡ b'
    → c ≡ c'
    → d ≡ d'
    → e ≡ e'
    → Path (List ℕ) (a ∷ b ∷ c ∷ d ∷ e ∷ []) (a' ∷ b' ∷ c' ∷ d' ∷ e' ∷ [])
five p q r s t = cc

fold_bits-IsRandom :
    (bytes : List ℕ)
    → IsRandom bytes
    → (fold_bits 0 bytes < 2 ^ 40) × (bytes_of (fold_bits 0 bytes) ≡ bytes)
unfolding fold_bits bytes_of
fold_bits-IsRandom (a ∷ b ∷ c ∷ d ∷ e ∷ []) (h, (ha, (hb, (hc, (hd, (he, _)))))) =
    (omega arith, five (omega arith) (omega arith) (omega arith) (omega arith) (omega arith))
fold_bits-IsRandom [] h = absurd (omega (arith, h.0))
fold_bits-IsRandom (a ∷ []) h = absurd (omega (arith, h.0))
fold_bits-IsRandom (a ∷ b ∷ []) h = absurd (omega (arith, h.0))
fold_bits-IsRandom (a ∷ b ∷ c ∷ []) h = absurd (omega (arith, h.0))
fold_bits-IsRandom (a ∷ b ∷ c ∷ d ∷ []) h = absurd (omega (arith, h.0))
fold_bits-IsRandom (a ∷ b ∷ c ∷ d ∷ e ∷ f ∷ bytes) h = absurd (omega (arith, h.0))

bytes_of-IsRandom : (n : ℕ) → n < 2 ^ 40 → IsRandom (bytes_of n) × (fold_bits 0 (bytes_of n) ≡ n)
unfolding fold_bits bytes_of
bytes_of-IsRandom n h = (
  (refl, (omega arith, (omega arith, (omega arith, (omega arith, (omega arith, tt)))))),
  omega arith,
)

ArePlaced : Chars → Type 0
ArePlaced [] = Unit {0}
ArePlaced (c ∷ cs) = ((nth alphabet (place c) ≡ c) × (place c < 32)) × ArePlaced cs

all-ArePlaced : (cs : Chars) → all (contains alphabet) cs ≡ true → ArePlaced cs
unfolding ArePlaced
all-ArePlaced [] h = tt
all-ArePlaced (c ∷ cs) h =
    let (first, rest) = &&-eq-true (contains alphabet c) _ h in
    (nth-place c first, all-ArePlaced cs rest)

-- The character that the number of a group stands for.
spelled : (i : ℕ) (c : ℕ) → i ≡ place c → nth alphabet (place c) ≡ c → nth alphabet i ≡ c
spelled i c h e = ap (nth alphabet) h ∙ e

eight :
    {a0 a1 a2 a3 a4 a5 a6 a7 b0 b1 b2 b3 b4 b5 b6 b7 : ℕ}
    → a0 ≡ b0
    → a1 ≡ b1
    → a2 ≡ b2
    → a3 ≡ b3
    → a4 ≡ b4
    → a5 ≡ b5
    → a6 ≡ b6
    → a7 ≡ b7
    → Path Chars
        (a0 ∷ a1 ∷ a2 ∷ a3 ∷ a4 ∷ a5 ∷ a6 ∷ a7 ∷ [])
        (b0 ∷ b1 ∷ b2 ∷ b3 ∷ b4 ∷ b5 ∷ b6 ∷ b7 ∷ [])
eight p0 p1 p2 p3 p4 p5 p6 p7 = cc

digits-value :
    (code : Chars)
    → length code ≡ 8
    → ArePlaced code
    → (value code 0 < 2 ^ 40) × (digits (value code 0) 8 ≡ code)
unfolding digits value ArePlaced
digits-value (c0 ∷ c1 ∷ c2 ∷ c3 ∷ c4 ∷ c5 ∷ c6 ∷ c7 ∷ []) h
      (
        (e0, l0),
        ((e1, l1), ((e2, l2), ((e3, l3), ((e4, l4), ((e5, l5), ((e6, l6), ((e7, l7), _))))))),
      ) =
    let v : ℕ = value (c0 ∷ c1 ∷ c2 ∷ c3 ∷ c4 ∷ c5 ∷ c6 ∷ c7 ∷ []) 0 in
    (
      omega arith,
      eight (spelled (v / 2 ^ 35 % 32) c0 (omega arith) e0)
          (spelled (v / 2 ^ 30 % 32) c1 (omega arith) e1)
          (spelled (v / 2 ^ 25 % 32) c2 (omega arith) e2)
          (spelled (v / 2 ^ 20 % 32) c3 (omega arith) e3)
          (spelled (v / 2 ^ 15 % 32) c4 (omega arith) e4)
          (spelled (v / 2 ^ 10 % 32) c5 (omega arith) e5)
          (spelled (v / 2 ^ 5 % 32) c6 (omega arith) e6)
          (spelled (v / 2 ^ 0 % 32) c7 (omega arith) e7),
    )
digits-value [] h placed = absurd (omega (arith, h))
digits-value (c0 ∷ []) h placed = absurd (omega (arith, h))
digits-value (c0 ∷ c1 ∷ []) h placed = absurd (omega (arith, h))
digits-value (c0 ∷ c1 ∷ c2 ∷ []) h placed = absurd (omega (arith, h))
digits-value (c0 ∷ c1 ∷ c2 ∷ c3 ∷ []) h placed = absurd (omega (arith, h))
digits-value (c0 ∷ c1 ∷ c2 ∷ c3 ∷ c4 ∷ []) h placed = absurd (omega (arith, h))
digits-value (c0 ∷ c1 ∷ c2 ∷ c3 ∷ c4 ∷ c5 ∷ []) h placed = absurd (omega (arith, h))
digits-value (c0 ∷ c1 ∷ c2 ∷ c3 ∷ c4 ∷ c5 ∷ c6 ∷ []) h placed = absurd (omega (arith, h))
digits-value (c0 ∷ c1 ∷ c2 ∷ c3 ∷ c4 ∷ c5 ∷ c6 ∷ c7 ∷ c8 ∷ cs) h placed = absurd (omega (arith, h))

-- The bytes that a code is made of.
pub bytes_for : PairingCode → List ℕ
bytes_for code = bytes_of (value code 0)

-- Each code of eight characters of the alphabet is made of five random bytes, and of no other five than those, so all
-- codes are equally likely.
pub generate_once :
    (code : PairingCode) (bytes : List ℕ)
    → IsCode code
    → IsRandom bytes
    → IsRandom (bytes_for code)
      × (generate (ok (bytes_for code)) ≡ ok code)
      × ((generate (ok bytes) ≡ ok code) ↔ (bytes ≡ bytes_for code))
unfolding generate bytes_for
generate_once code bytes (eight_long, known) h =
    let (small, spelt) = digits-value code eight_long (all-ArePlaced code known) in
    let (random, whole) = bytes_of-IsRandom (value code 0) small in
    let (below, back) = fold_bits-IsRandom bytes h in
    let made : digits (fold_bits 0 (bytes_of (value code 0))) 8 ≡ code =
      ap (λ n. digits n 8) whole ∙ spelt in
    (
      random,
      ap ok made,
      (
        λ e.
            sym back
            ∙ ap bytes_of (
                sym (value-digits (fold_bits 0 bytes) below)
                ∙ ap (λ c. value c 0) (ok_injective e)),
        λ e. ap ok (ap (λ b. digits (fold_bits 0 b) 8) e ∙ made),
      ),
    )
