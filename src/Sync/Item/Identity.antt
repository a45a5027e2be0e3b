-- ===== src/Sync/Item/Identity.antt =====
-- Which contents have the same hash.
use cled.Common.{List, all, true, ℕ, ◌++◌, ◌≡◌, ◌≢◌}
use cled.Clipboard.Content.{Chars, Image, text, image, is_whitespace}
use cled.Clipboard.Content.Trim.{identity_text-append}
use cled.Sync.Item.{hashed_bytes, hash_of}

-- Whatever the hash function is, text with whitespace added at its end keeps its content hash.
hash_of-text-append :
    (blake3 : List ℕ → ℕ) (t w : Chars)
    → all is_whitespace w ≡ true
    → hash_of blake3 (text (t ++ w)) ≡ hash_of blake3 (text t)
unfolding hash_of hashed_bytes
hash_of-text-append blake3 t w h = rw (identity_text-append t w h)

-- The bytes hashed for a text are never those of an image.
hashed_bytes-text-ne-image :
    (t : Chars) (i : Image) → hashed_bytes (text t) ≢ hashed_bytes (image i)
unfolding hashed_bytes
hashed_bytes-text-ne-image t i = cc
