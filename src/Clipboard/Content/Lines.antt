-- ===== src/Clipboard/Content/Lines.antt =====
-- Line endings: what `normalize_line_endings` leaves.
use cled.Common.{Bool-cases, [], arith, contains, false, inl, inr, nat_eq, refl, ◌∷◌, ◌≡◌}
use cled.Clipboard.Content.{Chars, replace_crlf, replace_cr, normalize_line_endings}

contains-replace_cr : (t : Chars) → contains (replace_cr t) 13 ≡ false
unfolding replace_cr
contains-replace_cr [] = refl
contains-replace_cr (c ∷ cs) = ground (arith, contains-replace_cr cs)

-- Normalized text has no carriage return, whatever was copied.
pub contains-normalize : (t : Chars) → contains (normalize_line_endings t) 13 ≡ false
unfolding normalize_line_endings
contains-normalize t = elim (Bool-cases (contains t 13)) [
  | inl e ↦ rw e (contains-replace_cr (replace_crlf t))
  | inr e ↦ rw e e
]

normalize_clean : (t : Chars) → contains t 13 ≡ false → normalize_line_endings t ≡ t
unfolding normalize_line_endings
normalize_clean t h = rw h

-- Normalizing again changes nothing.
pub normalize_idempotent :
    (t : Chars) → normalize_line_endings (normalize_line_endings t) ≡ normalize_line_endings t
normalize_idempotent t = normalize_clean (normalize_line_endings t) (contains-normalize t)
