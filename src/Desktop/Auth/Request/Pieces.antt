-- ===== src/Desktop/Auth/Request/Pieces.antt =====
-- A request is read alike in whatever pieces it arrives: `read_request_target` of
-- apps/desktop/src-tauri/src/auth.rs.
use cled.Common.{
  ℕ, List, [], ◌∷◌, ◌++◌, Option, some, ◌≡◌, refl, sym, ap, ◌∙◌, true, false, Bool, all, length,
  ltb, ◌≤◌, ◌<◌, ◌&&◌, arith, inl, inr, Bool-cases, list_eq, nat_eq, ◌==◌, subst, length-append,
}
use cled.Common.Utf8.{codes}
use cled.Common.Utf8.Lossy.{from_utf8_lossy, from_utf8_lossy-ascii}
use cled.Clipboard.Content.{Chars, is_whitespace}
use cled.Lan.Noise.Frames.{concat}
use cled.Desktop.Auth.Request.{
  has_end, read_head, target_in, the_first, ◌>>=◌, until_newline, strip_return, first_line,
  split_word, next_word, target_of, read_request_target,
}
use mathlib.Core.List.{append-nil, append_assoc, head-eq_of_cons-eq, tail-eq_of_cons-eq}

-- Reads that give these bytes.
abbrev pub arriving : List (List ℕ) → List (Option (List ℕ))
arriving [] = []
arriving (p ∷ ps) = some p ∷ arriving ps

-- The reading has stopped at a first part of the bytes that has the end of the head in it.
record Stopped (whole : List ℕ) (answer : Option (List ℕ)) : Type 0 where
  pub head : List ℕ
  pub later : List ℕ
  pub answered : answer ≡ some head
  pub ended : has_end head ≡ true
  pub parts : head ++ later ≡ whole

read_head_goes_on :
    (buffer p : List ℕ) (reads : List (Option (List ℕ)))
    → has_end buffer ≡ false
    → 0 < length p
    → length buffer ≤ 16384
    → read_head buffer (some p ∷ reads) ≡ read_head (buffer ++ p) reads
unfolding read_head
read_head_goes_on buffer p reads he ne le =
    let not_empty : (length p == 0) ≡ false = ground (arith, ne) in
    let short : ltb 16384 (length buffer) ≡ false = ground (arith, le) in
    rw (he, not_empty, short) refl

read_head-Stopped :
    (buffer : List ℕ) (pieces : List (List ℕ))
    → all (λ p. ltb 0 (length p)) pieces ≡ true
    → has_end (buffer ++ concat pieces) ≡ true
    → length (buffer ++ concat pieces) ≤ 16384
    → Stopped (buffer ++ concat pieces) (read_head buffer (arriving pieces))
unfolding read_head
read_head-Stopped buffer [] ne he le =
    let here : has_end buffer ≡ true = subst (λ b. has_end b ≡ true) (append-nil buffer) he in
    record { head = buffer; later = []; ended = here; parts = refl; answered = rw here refl }
read_head-Stopped buffer (p ∷ ps) ne he le = elim (Bool-cases (has_end buffer)) [
  | inl here ↦ record {
    head = buffer;
    later = concat (p ∷ ps);
    ended = here;
    parts = refl;
    answered = rw here refl;
  }
  | inr not_yet ↦
      let same : (buffer ++ p) ++ concat ps ≡ buffer ++ (p ++ concat ps) =
        append_assoc buffer p (concat ps) in
      let next =
        read_head-Stopped (buffer ++ p) ps (ground (arith, ne)) (ap has_end same ∙ he)
          (subst (λ b. length b ≤ 16384) (sym same) le) in
      record {
        head = next.head;
        later = next.later;
        ended = next.ended;
        parts = next.parts ∙ same;
        answered =
            read_head_goes_on buffer p (arriving ps) not_yet (ground (arith, ne))
              (omega (arith, length-append buffer (p ++ concat ps), le))
            ∙ next.answered;
      }
]

has_end-cons : (a : ℕ) (p : List ℕ) → ltb 31 a ≡ true → has_end (a ∷ p) ≡ has_end p
unfolding has_end
has_end-cons a p h = ground arith

-- A first part that has an end goes past the first line, which has no return in it.
past_line :
    (line p later rest : List ℕ)
    → all (λ c. ltb 31 c) line ≡ true
    → has_end p ≡ true
    → p ++ later ≡ line ++ 13 ∷ 10 ∷ rest
    → ((more : List ℕ) × (p ≡ line ++ 13 ∷ 10 ∷ more))
unfolding has_end
past_line line [] later rest h he eq = absurd (ground arith)
past_line [] (a ∷ []) later rest h he eq = absurd (ground arith)
past_line [] (a ∷ b ∷ p) later rest h he eq = (
  p,
  ap (λ x. x ∷ b ∷ p) (head-eq_of_cons-eq eq)
      ∙ ap (λ x. 13 ∷ x ∷ p) (head-eq_of_cons-eq (tail-eq_of_cons-eq eq)),
)
past_line (c ∷ line) (a ∷ p) later rest h he eq =
    let same : a ≡ c = head-eq_of_cons-eq eq in
    let above : ltb 31 a ≡ true = ground (arith, same) in
    let next =
      past_line line p later rest (ground (arith, h)) (sym (has_end-cons a p above) ∙ he)
        (tail-eq_of_cons-eq eq) in
    (next.0, ap (λ x. x ∷ p) same ∙ ap (◌∷◌ c) next.1)

until_newline-line :
    (line rest : Chars)
    → all (λ c. ltb 31 c) line ≡ true
    → until_newline (line ++ 13 ∷ 10 ∷ rest) ≡ line ++ 13 ∷ []
until_newline-line [] rest h = refl
until_newline-line (c ∷ cs) rest h = ground (arith, until_newline-line cs rest)

strip_return-line : (line : Chars) → strip_return (line ++ 13 ∷ []) ≡ line
strip_return-line [] = refl
strip_return-line (c ∷ []) = refl
strip_return-line (c ∷ d ∷ ds) = ap (◌∷◌ c) (strip_return-line (d ∷ ds))

first_line-line :
    (c : ℕ) (line rest : Chars)
    → all (λ c. ltb 31 c) (c ∷ line) ≡ true
    → first_line (c ∷ line ++ 13 ∷ 10 ∷ rest) ≡ some (c ∷ line)
unfolding first_line
first_line-line c line rest h =
    ap (λ l. some (strip_return l)) (until_newline-line (c ∷ line) rest h)
    ∙ ap {B = Option Chars} some (strip_return-line (c ∷ line))

abbrev pub is_graphic : ℕ → Bool
is_graphic c = ltb 32 c && ltb c 127

graphic-is_whitespace : (c : ℕ) → is_graphic c ≡ true → is_whitespace c ≡ false
unfolding is_whitespace
graphic-is_whitespace c h = ground arith

split_word-graphic :
    (word rest : Chars)
    → all is_graphic word ≡ true
    → split_word (word ++ 32 ∷ rest) ≡ (word, 32 ∷ rest)
unfolding is_whitespace
split_word-graphic [] rest h = refl
split_word-graphic (c ∷ cs) rest h =
    rw (graphic-is_whitespace c (ground (arith, h)), split_word-graphic cs rest (ground (arith, h)))
      refl

next_word-graphic :
    (word rest : Chars)
    → 0 < length word
    → all is_graphic word ≡ true
    → next_word (32 ∷ word ++ 32 ∷ rest) ≡ some (word, 32 ∷ rest)
unfolding next_word is_whitespace
next_word-graphic [] rest ne h = absurd (omega (arith, ne))
next_word-graphic (c ∷ cs) rest ne h =
    let black : is_whitespace c ≡ false = graphic-is_whitespace c (ground (arith, h)) in
    rw (black, split_word-graphic cs rest (ground (arith, h)), black) refl

abbrev request_line : Chars → List ℕ
request_line target = codes "GET " ++ (target ++ codes " HTTP/1.1")

-- A request for a target; `rest` is what comes after the first line.
abbrev pub request : Chars → List ℕ → List ℕ
request target rest = request_line target ++ 13 ∷ 10 ∷ rest

target_in-request_line :
    (target : Chars)
    → 0 < length target
    → all is_graphic target ≡ true
    → target_in (request_line target) ≡ some target
unfolding target_in next_word is_whitespace
target_in-request_line target ne h = ap the_first (next_word-graphic target (codes "HTTP/1.1") ne h)

graphic_line :
    (target : Chars)
    → all is_graphic target ≡ true
    → all (λ c. ltb 31 c && ltb c 128) (target ++ codes " HTTP/1.1") ≡ true
graphic_line [] h = refl
graphic_line (c ∷ cs) h = ground (arith, graphic_line cs)

no_return :
    (line : Chars) → all (λ c. ltb 31 c && ltb c 128) line ≡ true → all (λ c. ltb 31 c) line ≡ true
no_return [] h = refl
no_return (c ∷ cs) h = ground (arith, no_return cs)

is_ascii :
    (line : Chars)
    → all (λ c. ltb 31 c && ltb c 128) line ≡ true
    → all (λ c. ltb c 0x80) (line ++ 13 ∷ 10 ∷ []) ≡ true
is_ascii [] h = refl
is_ascii (c ∷ cs) h = ground (arith, is_ascii cs)

target_of-request :
    (target rest : Chars)
    → 0 < length target
    → all is_graphic target ≡ true
    → target_of (request target rest) ≡ some target
unfolding target_of
target_of-request target rest ne h =
    ap (λ line. line >>= target_in)
      (first_line-line b'G' (69 ∷ 84 ∷ 32 ∷ (target ++ codes " HTTP/1.1")) rest
        (no_return (request_line target) (graphic_line target h)))
    ∙ target_in-request_line target ne h

lossy_request :
    (target : Chars) (rest : List ℕ)
    → all is_graphic target ≡ true
    → from_utf8_lossy (request target rest) ≡ request target (from_utf8_lossy rest)
lossy_request target rest h =
    ap from_utf8_lossy (sym (append_assoc (request_line target) (13 ∷ 10 ∷ []) rest))
    ∙ from_utf8_lossy-ascii (request_line target ++ 13 ∷ 10 ∷ []) rest
        (is_ascii (request_line target) (graphic_line target h))
    ∙ append_assoc (request_line target) (13 ∷ 10 ∷ []) (from_utf8_lossy rest)

-- A request for a target of visible ASCII characters, of at most 16 KiB, is read as that target, in whatever
-- pieces it arrives, if none is empty and it has the end of its head.
pub read_request_target-arriving :
    (target : Chars) (rest : List ℕ) (pieces : List (List ℕ))
    → 0 < length target
    → all is_graphic target ≡ true
    → has_end (request target rest) ≡ true
    → length (request target rest) ≤ 16384
    → concat pieces ≡ request target rest
    → all (λ p. ltb 0 (length p)) pieces ≡ true
    → read_request_target (arriving pieces) ≡ some target
unfolding read_request_target
read_request_target-arriving target rest pieces ne h he le eq each =
    let stop =
      read_head-Stopped [] pieces each (ap has_end eq ∙ he)
        (subst (λ b. length b ≤ 16384) (sym eq) le) in
    let past =
      past_line (request_line target) stop.head stop.later rest
        (no_return (request_line target) (graphic_line target h)) stop.ended (stop.parts ∙ eq) in
    ap (λ head. head >>= λ buffer. target_of (from_utf8_lossy buffer)) stop.answered
    ∙ ap (λ buffer. target_of (from_utf8_lossy buffer)) past.1
    ∙ ap target_of (lossy_request target past.0 h)
    ∙ target_of-request target (from_utf8_lossy past.0) ne h
