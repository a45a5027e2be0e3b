-- ===== src/Lan/Noise.antt =====
-- crates/cled-lan/src/noise.rs: frames, and messages split across encrypted frames. A stream is the
-- list of the bytes that wait in it, with its end after them.
pub mod Frames
pub mod Messages
pub mod Roundtrip
pub mod Fuel
pub mod Handshake
use cled.Common.{
  List, Option, [], drop, if◌then◌else◌, leb, length, ltb, nat_eq, none, some, suc, take, zero, ℕ,
  ◌++◌, ◌==◌, ◌∷◌,
}
use cled.Common.Bytes.{to_be_bytes, from_be_bytes}
use cled.Lan.Wire.{max_message_bytes}
use cled.Lan.Error.{Result, ok, err, too_large, malformed, io, ◌>>=◌}

abbrev max_noise_message : ℕ
max_noise_message = 65535

abbrev tag_len : ℕ
tag_len = 16

-- `MAX_NOISE_MESSAGE - TAG_LEN`.
abbrev pub max_chunk : ℕ
max_chunk = 65519

-- The length of the frame has to fit 16 bits.
unfoldable pub write_frame : List ℕ → List ℕ → List ℕ × Result (Unit {0})
write_frame w frame =
    if leb (length frame) 65535
    then (w ++ (to_be_bytes 2 (length frame) ++ frame), ok tt)
    else (w, err (too_large (length frame)))

-- What was read, and the stream after it.
abbrev pub read_exact : ℕ → List ℕ → Result (List ℕ × List ℕ)
read_exact n r = if leb n (length r) then ok (take n r, drop n r) else err io

unfoldable pub read_frame : List ℕ → Result (List ℕ × List ℕ)
read_frame r = read_exact 2 r >>= λ header. read_exact (from_be_bytes header.0) header.1

-- `slice::chunks`, on fuel: the length of the list is enough.
unfoldable pub chunks_from {ℓ} : {A : Type ℓ} → ℕ → ℕ → List A → List (List A)
chunks_from n zero xs = []
chunks_from n (suc fuel) [] = []
chunks_from n (suc fuel) (x ∷ xs) = take n (x ∷ xs) ∷ chunks_from n fuel (drop n (x ∷ xs))

unfoldable pub chunks {ℓ} : {A : Type ℓ} → ℕ → List A → List (List A)
chunks n xs = chunks_from n (length xs) xs

-- The end of the loop's body: the message so far, with its length when that is known.
unfoldable pub complete : ℕ → List ℕ → Result (Option (List ℕ))
complete len message =
    if ltb len (length message)
    then err malformed
    else if length message == len
    then ok (some message)
    else ok none

-- The header of the first chunk.
unfoldable pub header : List ℕ → Result ℕ
header chunk =
    if leb 4 (length chunk)
    then (let len = from_be_bytes (take 4 chunk) in
        if ltb max_message_bytes len then err (too_large len) else ok len)
    else err malformed

-- What the chunk makes of the expected length and of the message so far.
unfoldable pub receive : Option ℕ → List ℕ → List ℕ → Result (ℕ × List ℕ)
receive (some len) message chunk = ok (len, message ++ chunk)
receive none message chunk = header chunk >>= λ len. ok (len, message ++ drop 4 chunk)

-- A whole message is returned, with the stream after it; else the loop goes on.
unfoldable pub finish {ℓ} :
    {S : Type ℓ}
    → S
    → ℕ
    → List ℕ
    → List ℕ
    → Result (S × List ℕ × List ℕ)
    → Result (S × List ℕ × List ℕ)
finish s len message r next =
    complete len message >>= λ done. elim done [ some whole ↦ ok (s, whole, r) | none ↦ next ]

-- `snow::TransportState`: a state that changes with every message.
module _ {S : Type 0} (write_message read_message : S → List ℕ → Result (S × List ℕ)) where
  -- The loop of `Cipher::send`: the state, what is in the writer, and the outcome.
  unfoldable pub send_chunks : S → List ℕ → List (List ℕ) → S × List ℕ × Result (Unit {0})
  send_chunks s w [] = (s, w, ok tt)
  send_chunks s w (chunk ∷ rest) = elim (write_message s chunk) [
    | err e ↦ (s, w, err e)
    | ok (s', out) ↦
        let (w', written) = write_frame w out in
        elim written [ err e ↦ (s', w', err e) | ok done ↦ send_chunks s' w' rest ]
  ]

  -- `Cipher::send`.
  unfoldable pub send : S → List ℕ → List ℕ → S × List ℕ × Result (Unit {0})
  send s w message =
      if ltb max_message_bytes (length message)
      then (s, w, err (too_large (length message)))
      else send_chunks s w (chunks max_chunk (to_be_bytes 4 (length message) ++ message))

  -- The loop of `Cipher::recv`, on fuel. Each round takes a frame of at least two bytes.
  unfoldable pub recv_loop : ℕ → S → Option ℕ → List ℕ → List ℕ → Result (S × List ℕ × List ℕ)
  recv_loop zero s expected message r = err io
  recv_loop (suc fuel) s expected message r = read_frame r >>= λ frame.
      read_message s frame.0 >>= λ plain. receive expected message plain.1 >>= λ got.
      finish plain.0 got.0 got.1 frame.1 (recv_loop fuel plain.0 (some got.0) got.1 frame.1)

  -- `Cipher::recv`: the state, the message, and the stream after it.
  unfoldable pub recv : S → List ℕ → Result (S × List ℕ × List ℕ)
  recv s r = recv_loop (suc (length r)) s none [] r
