-- ===== src/Lan/Code/Typing.antt =====
-- Codes of crates/cled-lan/src/code.rs as they are shown and typed.
use mathlib.Core.List.{map-append}
use cled.Common.{
  &&-eq-true, Bool, List, [], all, all-append, all-contains, ap, arith, contains, drop, length,
  nat_eq, nat_eq_iff, not, refl, retain-append, subst, suc, sym, take, take-append-drop, true, zero,
  ℕ, ◌%◌, ◌&&◌, ◌*◌, ◌++◌, ◌/◌, ◌<◌, ◌==◌, ◌^◌, ◌∙◌, ◌∷◌, ◌≡◌,
}
use cled.Clipboard.Content.{Chars, is_whitespace}
use cled.Lan.Error.{ok, ok_injective}
use cled.Lan.Code.{
  alphabet, PairingCode, digits, fold_bits, generate, corrected, to_ascii_uppercase, canonical,
  parse, display, nth,
}

-- Eight characters of the alphabet.
abbrev pub IsCode : PairingCode → Type 0
IsCode code = (length code ≡ 8) × (all (contains alphabet) code ≡ true)

-- The character is typed as it is: it is not skipped, and stands for itself.
abbrev plain : ℕ → Bool
plain c = (not (is_whitespace c) && not (c == b'-')) && corrected c == c

alphabet-plain : all plain alphabet ≡ true
unfolding is_whitespace corrected to_ascii_uppercase
alphabet-plain = refl

canonical-code : (code : Chars) → all (contains alphabet) code ≡ true → canonical code ≡ code
unfolding canonical
canonical-code [] h = refl
canonical-code (c ∷ cs) h =
    let (first, rest) = &&-eq-true (contains alphabet c) _ h in
    let (shown, itself) =
      &&-eq-true (not (is_whitespace c) && not (c == b'-')) _
        (all-contains plain alphabet c alphabet-plain first) in
    rw (shown, (nat_eq_iff (corrected c) c).0 itself) (ap (◌∷◌ c) (canonical-code cs rest))

canonical-append : (xs ys : Chars) → canonical (xs ++ ys) ≡ canonical xs ++ canonical ys
unfolding canonical
canonical-append xs ys =
    rw (retain-append (λ c. not (is_whitespace c) && not (c == b'-')) xs ys)
      (map-append corrected _ _)

all-halves :
    (code : Chars)
    → all (contains alphabet) code ≡ true
    → (all (contains alphabet) (take 4 code) ≡ true)
      × (all (contains alphabet) (drop 4 code) ≡ true)
all-halves code h = &&-eq-true _ _ (
    sym (all-append (contains alphabet) (take 4 code) (drop 4 code))
    ∙ ap (all (contains alphabet)) (take-append-drop 4 code)
    ∙ h)

dash-canonical : (xs : Chars) → canonical (b'-' ∷ xs) ≡ canonical xs
unfolding canonical is_whitespace
dash-canonical xs = refl

canonical-display :
    (code : Chars) → all (contains alphabet) code ≡ true → canonical (display code) ≡ code
unfolding display
canonical-display code h =
    let (front, back) = all-halves code h in
    canonical-append (take 4 code) (b'-' ∷ drop 4 code)
    ∙ rw
        (
          canonical-code (take 4 code) front,
          dash-canonical (drop 4 code),
          canonical-code (drop 4 code) back,
        )
        refl
    ∙ take-append-drop 4 code

contains-nth : (xs : List ℕ) (i : ℕ) → i < length xs → contains xs (nth xs i) ≡ true
contains-nth [] i h = absurd (omega arith)
contains-nth (x ∷ xs) zero h = ground (arith, nat_eq_iff x x)
contains-nth (x ∷ xs) (suc i) h = ground (arith, contains-nth xs i (omega arith))

digits-IsCode :
    (bits n : ℕ) → (length (digits bits n) ≡ n) × (all (contains alphabet) (digits bits n) ≡ true)
unfolding digits
digits-IsCode bits zero = (refl, refl)
digits-IsCode bits (suc n) =
    let (long, good) = digits-IsCode bits n in
    (ap suc long, rw (contains-nth alphabet (bits / 2 ^ (n * 5) % 32) (omega arith)) good)

parse_code : (code : PairingCode) → IsCode code → parse (display code) ≡ ok code
unfolding parse
parse_code code (long, good) = rw (canonical-display code good) (ground (arith, long, good))

-- A code that was generated has eight characters of the alphabet, whatever the random bytes, and
-- what is shown of it is typed back as that code.
pub parse-display :
    (bytes : List ℕ) (code : PairingCode)
    → generate (ok bytes) ≡ ok code
    → IsCode code × (parse (display code) ≡ ok code)
unfolding generate parse
parse-display bytes code h =
    let (long, good) = digits-IsCode (fold_bits 0 bytes) 8 in
    subst (λ code. IsCode code × (parse (display code) ≡ ok code)) (ok_injective h)
      ((long, good), parse_code (digits (fold_bits 0 bytes) 8) (long, good))
