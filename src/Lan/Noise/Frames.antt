-- ===== src/Lan/Noise/Frames.antt =====
-- Frames of crates/cled-lan/src/noise.rs: what is written is read back, and the chunks of a message
-- are the message.
use cled.Common.{
  List, [], ap, arith, drop, drop-append_at, length, length-append, length-drop, length-take, refl,
  suc, take, take-append-drop, take-append_at, zero, ℕ, ◌++◌, ◌+◌, ◌∙◌, ◌∷◌, ◌≡◌, ◌≤◌,
}
use cled.Common.Bytes.{from_be_bytes-to_be_bytes, to_be_bytes, to_le_bytes}
use mathlib.Core.List.{append_assoc}
use cled.Lan.Error.{ok}
use cled.Lan.Noise.{read_exact, read_frame, chunks_from, chunks}

pub length-to_be_bytes_two : (n : ℕ) → length (to_be_bytes 2 n) ≡ 2
unfolding to_be_bytes to_le_bytes
length-to_be_bytes_two n = refl

-- Reading as many bytes as stand in front.
pub read_exact-append :
    (n : ℕ) (xs r : List ℕ) → length xs ≡ n → read_exact n (xs ++ r) ≡ ok (xs, r)
read_exact-append n xs r h =
    rw (take-append_at n xs r h, drop-append_at n xs r h) (ground (arith, length-append xs r))

-- A frame of at most 65535 bytes is read back, with what follows it left in the stream.
pub read_frame-write_frame :
    (frame r : List ℕ)
    → length frame ≤ 65535
    → read_frame ((to_be_bytes 2 (length frame) ++ frame) ++ r) ≡ ok (frame, r)
unfolding read_frame
read_frame-write_frame frame r h =
    rw
      (
        append_assoc (to_be_bytes 2 (length frame)) frame r,
        read_exact-append 2 (to_be_bytes 2 (length frame)) (frame ++ r)
            (length-to_be_bytes_two (length frame)),
        from_be_bytes-to_be_bytes 2 (length frame) (omega arith),
      )
      (read_exact-append (length frame) frame r refl)

-- The chunks of a list, put together, are the list.
abbrev pub concat {ℓ} : {A : Type ℓ} → List (List A) → List A
concat [] = []
concat (xs ∷ xss) = xs ++ concat xss

suc-plus : (n k : ℕ) → suc n + k ≡ suc (n + k)
suc-plus n k = omega arith

module _ {ℓ} {A : Type ℓ} where
  -- No chunk is empty or longer than the bound.
  abbrev pub AreChunks : ℕ → List (List A) → Type 0
  AreChunks n [] = Unit {0}
  AreChunks n (c ∷ cs) = (1 ≤ length c) × (length c ≤ n) × AreChunks n cs

  pub concat-chunks_from :
      (n fuel : ℕ) (xs : List A)
      → 1 ≤ n
      → length xs ≤ fuel
      → (concat (chunks_from n fuel xs) ≡ xs) × AreChunks n (chunks_from n fuel xs)
  unfolding chunks_from
  concat-chunks_from n zero [] pos h = (refl, tt)
  concat-chunks_from n zero (x ∷ xs) pos h = absurd (omega arith)
  concat-chunks_from n (suc fuel) [] pos h = (refl, tt)
  concat-chunks_from n (suc fuel) (x ∷ xs) pos h =
      let shorter : length (drop n (x ∷ xs)) ≤ fuel = omega (arith, length-drop n (x ∷ xs)) in
      let (whole, sizes) = concat-chunks_from n fuel (drop n (x ∷ xs)) pos shorter in
      (
        ap (λ ys. take n (x ∷ xs) ++ ys) whole ∙ take-append-drop n (x ∷ xs),
        (omega (arith, length-take n (x ∷ xs)), omega (arith, length-take n (x ∷ xs)), sizes),
      )

  -- Splitting a list in chunks loses nothing.
  concat-chunks :
      (n : ℕ) (xs : List A) → 1 ≤ n → (concat (chunks n xs) ≡ xs) × AreChunks n (chunks n xs)
  unfolding chunks
  concat-chunks n xs pos = concat-chunks_from n (length xs) xs pos (omega arith)

  take-append_past : (xs ys : List A) (k : ℕ) → take (length xs + k) (xs ++ ys) ≡ xs ++ take k ys
  take-append_past [] ys k = ap (λ n. take n ys) (omega arith)
  take-append_past (x ∷ xs) ys k =
      ap (λ n. take n (x ∷ xs ++ ys)) (suc-plus (length xs) k)
      ∙ ap (◌∷◌ x) (take-append_past xs ys k)

  drop-append_past : (xs ys : List A) (k : ℕ) → drop (length xs + k) (xs ++ ys) ≡ drop k ys
  drop-append_past [] ys k = ap (λ n. drop n ys) (omega arith)
  drop-append_past (x ∷ xs) ys k =
      ap (λ n. drop n (x ∷ xs ++ ys)) (suc-plus (length xs) k) ∙ drop-append_past xs ys k

  -- The first chunk of a list that starts with a header, and the rest on fuel that is enough.
  pub chunks-append :
      (n k : ℕ) (header xs : List A)
      → 1 ≤ length header
      → n ≡ length header + k
      → (fuel : ℕ) × (length xs ≤ fuel)
        × (chunks n (header ++ xs) ≡ (header ++ take k xs) ∷ chunks_from n fuel (drop k xs))
  unfolding chunks chunks_from
  chunks-append n k [] xs pos whole = absurd (omega arith)
  chunks-append n k (x ∷ header) xs pos whole = (
    length (header ++ xs),
    omega (arith, length-append header xs),
    ap
          (λ m.
            take m (x ∷ header ++ xs)
            ∷ chunks_from n (length (header ++ xs)) (drop m (x ∷ header ++ xs)))
          whole
        ∙ rw (take-append_past (x ∷ header) xs k, drop-append_past (x ∷ header) xs k) refl,
  )
