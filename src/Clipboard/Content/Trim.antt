-- ===== src/Clipboard/Content/Trim.antt =====
-- Trailing whitespace: what `trim_end` takes away.
use cled.Common.{&&-eq-true, [], all, refl, true, ◌++◌, ◌∷◌, ◌≡◌}
use cled.Clipboard.Content.{Chars, is_whitespace, trim_end, identity_text}

trim_end-all : (w : Chars) → all is_whitespace w ≡ true → trim_end w ≡ []
unfolding trim_end
trim_end-all [] h = refl
trim_end-all (c ∷ cs) h =
    let (first, rest) = &&-eq-true (is_whitespace c) _ h in rw (trim_end-all cs rest, first)

-- Text with whitespace added at its end has the same identity.
pub identity_text-append :
    (t w : Chars) → all is_whitespace w ≡ true → identity_text (t ++ w) ≡ identity_text t
unfolding identity_text trim_end
identity_text-append [] w h = trim_end-all w h
identity_text-append (c ∷ cs) w h = rw (identity_text-append cs w h)
