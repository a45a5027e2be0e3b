-- ===== src/Desktop/Auth/Request.antt =====
-- `read_request_target` of apps/desktop/src-tauri/src/auth.rs: the head of the request that the browser sends to
-- the app's own address.
pub mod Pieces
use cled.Common.{
  Bool, List, Option, [], false, none, some, ℕ, ◌∷◌, ◌==◌, ◌||◌, ◌++◌, take, length, ltb, list_eq,
  nat_eq, if◌then◌else◌,
}
use cled.Common.Utf8.{codes}
use cled.Common.Utf8.Lossy.{from_utf8_lossy}
use cled.Clipboard.Content.{Chars, is_whitespace}

infixl 5 ◌>>=◌
abbrev pub ◌>>=◌ {ℓ} : {A B : Type ℓ} → Option A → (A → Option B) → Option B
none >>= f = none
some a >>= f = f a

abbrev pub the_first : Option (Chars × Chars) → Option Chars
the_first none = none
the_first (some w) = some w.0

-- `windows(4).any(|w| w == b"\r\n\r\n")`.
unfoldable pub has_end : List ℕ → Bool
has_end [] = false
has_end (b ∷ bs) = take 4 (b ∷ bs) == (13 ∷ 10 ∷ 13 ∷ 10 ∷ []) || has_end bs

-- The loop, over what each read gives: its bytes, or `none` when it fails or takes five seconds, as after the
-- last entry.
unfoldable pub read_head : List ℕ → List (Option (List ℕ)) → Option (List ℕ)
read_head buffer [] = if has_end buffer then some buffer else none
read_head buffer (none ∷ reads) = if has_end buffer then some buffer else none
read_head buffer (some chunk ∷ reads) =
    let rest = read_head (buffer ++ chunk) reads in
    if has_end buffer
    then some buffer
    else if length chunk == 0 || ltb 16384 (length buffer)
    then none
    else rest

abbrev pub until_newline : Chars → Chars
until_newline [] = []
until_newline (c ∷ cs) = let rest = until_newline cs in if c == 10 then [] else c ∷ rest

abbrev pub strip_return : Chars → Chars
strip_return [] = []
strip_return (c ∷ []) = if c == 13 then [] else c ∷ []
strip_return (c ∷ d ∷ ds) = c ∷ strip_return (d ∷ ds)

-- `lines().next()`.
unfoldable pub first_line : Chars → Option Chars
first_line [] = none
first_line (c ∷ cs) = some (strip_return (until_newline (c ∷ cs)))

abbrev skip_whitespace : Chars → Chars
skip_whitespace [] = []
skip_whitespace (c ∷ cs) = let rest = skip_whitespace cs in if is_whitespace c then rest else c ∷ cs

-- Up to the next whitespace, and from there.
abbrev pub split_word : Chars → Chars × Chars
split_word [] = ([], [])
split_word (c ∷ cs) =
    let rest = split_word cs in if is_whitespace c then ([], c ∷ cs) else (c ∷ rest.0, rest.1)

abbrev some_word : Chars → Option (Chars × Chars)
some_word [] = none
some_word (c ∷ cs) = some (split_word (c ∷ cs))

-- `next` of `split_whitespace`, and what it goes on with.
unfoldable pub next_word : Chars → Option (Chars × Chars)
next_word cs = some_word (skip_whitespace cs)

-- The target in the first line of a request.
unfoldable pub target_in : Chars → Option Chars
target_in line = do
  word ← next_word line
  if word.0 == codes "GET" then the_first (next_word word.1) else none

unfoldable pub target_of : Chars → Option Chars
target_of head = do line ← first_line head; target_in line

unfoldable pub read_request_target : List (Option (List ℕ)) → Option Chars
read_request_target reads = do buffer ← read_head [] reads; target_of (from_utf8_lossy buffer)
