-- ===== src/Lan/Noise/Messages.antt =====
-- Messages of crates/cled-lan/src/noise.rs: what one side sends, the other receives.
use cled.Common.{
  List, Option, [], ap, arith, length, length-append, refl, some, subst, suc, sym, zero, ℕ, ◌++◌,
  ◌+◌, ◌<◌, ◌∙◌, ◌∷◌, ◌≡◌, ◌≤◌,
}
use cled.Common.Bytes.{to_be_bytes}
use mathlib.Core.List.{append_assoc, append-nil}
use cled.Lan.Error.{Result, ok, ◌>>=◌}
use cled.Lan.Noise.{write_frame, max_chunk, send_chunks, complete, receive, finish, recv_loop}
use cled.Lan.Noise.Frames.{read_frame-write_frame, concat, AreChunks, length-to_be_bytes_two}

-- The encrypted form of a chunk that the other side decrypts, with the states after it.
pub record Passes {S : Type 0} (write_message read_message : S → List ℕ → Result (S × List ℕ))
    (Agree : S → S → Type 0) (s r : S) (chunk : List ℕ) : Type 0 where
  pub sender : S
  pub receiver : S
  pub out : List ℕ
  pub writes : write_message s chunk ≡ ok (sender, out)
  pub short : length out ≤ 65535
  pub reads : read_message r out ≡ ok (receiver, chunk)
  pub agree : Agree sender receiver

module _ {S : Type 0} (write_message read_message : S → List ℕ → Result (S × List ℕ))
    (Agree : S → S → Type 0)
    -- The two ends of a finished handshake agree, and stay so with every message that is passed.
    (passes : (s r : S) (chunk : List ℕ)
      → Agree s r
      → length chunk ≤ max_chunk
      → Passes write_message read_message Agree s r chunk) where
  abbrev sends : S → List ℕ → List (List ℕ) → S × List ℕ × Result (Unit {0})
  sends = send_chunks write_message read_message

  abbrev loops : ℕ → S → Option ℕ → List ℕ → List ℕ → Result (S × List ℕ × List ℕ)
  loops = recv_loop write_message read_message

  -- The chunks were sent, and a receiver that has the message so far makes it whole of them.
  pub record Delivered (s r : S) (len : ℕ) (message w tail : List ℕ) (cs : List (List ℕ))
      : Type 0 where
    pub bytes : List ℕ
    pub receiver : S
    pub done : (sends s w cs).2 ≡ ok tt
    pub written : (sends s w cs).1 ≡ w ++ bytes
    pub many : length cs ≤ length bytes
    pub received :
        (fuel : ℕ)
        → length cs ≤ fuel
        → finish r len message (bytes ++ tail) (loops fuel r (some len) message (bytes ++ tail))
          ≡ ok (receiver, message ++ concat cs, tail)
    pub agree : Agree (sends s w cs).0 receiver

  -- A frame that waits in the stream is taken by one round of the loop.
  pub recv_loop-frame :
      (fuel : ℕ) (r r' : S) (expected : Option ℕ) (message out chunk rest : List ℕ)
      → length out ≤ 65535
      → read_message r out ≡ ok (r', chunk)
      → loops (suc fuel) r expected message ((to_be_bytes 2 (length out) ++ out) ++ rest) ≡ (
          receive expected message chunk >>= λ got.
          finish r' got.0 got.1 rest (loops fuel r' (some got.0) got.1 rest))
  unfolding recv_loop
  recv_loop-frame fuel r r' expected message out chunk rest short reads =
      rw (read_frame-write_frame out rest short, reads) refl

  write_frame-short :
      (w out : List ℕ)
      → length out ≤ 65535
      → write_frame w out ≡ (w ++ (to_be_bytes 2 (length out) ++ out), ok tt)
  unfolding write_frame
  write_frame-short w out short = ground arith

  pub send_chunks-cons :
      (c : List ℕ) (cs : List (List ℕ)) (s r : S) (w : List ℕ)
      → (p : Passes write_message read_message Agree s r c)
      → sends s w (c ∷ cs) ≡ sends p.sender (w ++ (to_be_bytes 2 (length p.out) ++ p.out)) cs
  unfolding send_chunks
  send_chunks-cons c cs s r w p = ground (arith, p.writes, write_frame-short w p.out p.short)

  length-frame :
      (out bytes : List ℕ)
      → length ((to_be_bytes 2 (length out) ++ out) ++ bytes) ≡ 2 + length out + length bytes
  length-frame out bytes = omega (
    arith,
    length-append (to_be_bytes 2 (length out) ++ out) bytes,
    length-append (to_be_bytes 2 (length out)) out,
    length-to_be_bytes_two (length out),
  )

  finish-next :
      (message r : List ℕ) (len : ℕ) (s : S) (next : Result (S × List ℕ × List ℕ))
      → length message < len
      → finish s len message r next ≡ next
  unfolding finish complete
  finish-next message r len s next more = ground arith

  -- The loop after a chunk that does not end the message takes the next frame.
  finish-more :
      (c rest message : List ℕ) (len fuel : ℕ) (s r : S)
      → length message < len
      → (p : Passes write_message read_message Agree s r c)
      → finish r len message
          ((to_be_bytes 2 (length p.out) ++ p.out) ++ rest)
          (loops (suc fuel) r (some len) message ((to_be_bytes 2 (length p.out) ++ p.out) ++ rest))
        ≡ finish p.receiver len
            (message ++ c)
            rest
            (loops fuel p.receiver (some len) (message ++ c) rest)
  unfolding receive
  finish-more c rest message len fuel s r more p =
      finish-next message _ len r _ more
      ∙ recv_loop-frame fuel r p.receiver (some len) message p.out c rest p.short p.reads

  received-cons :
      (c : List ℕ) (cs : List (List ℕ)) (s r : S) (len : ℕ) (message w tail : List ℕ)
      → length message < len
      → (p : Passes write_message read_message Agree s r c)
      → (d : Delivered p.sender p.receiver len (message ++ c) w tail cs) → (fuel : ℕ)
      → suc (length cs) ≤ fuel
      → finish r len message ((to_be_bytes 2 (length p.out) ++ p.out) ++ (d.bytes ++ tail)) (
          loops fuel r
            (some len)
            message
            ((to_be_bytes 2 (length p.out) ++ p.out) ++ (d.bytes ++ tail)))
        ≡ ok (d.receiver, message ++ concat (c ∷ cs), tail)
  received-cons c cs s r len message w tail more p d zero le = absurd (omega arith)
  received-cons c cs s r len message w tail more p d (suc fuel) le =
      finish-more c (d.bytes ++ tail) message len fuel s r more p
      ∙ d.received fuel (omega arith)
      ∙ ap (λ m. ok (d.receiver, m, tail)) (append_assoc message c (concat cs))

  -- One chunk more: its frame stands before the others.
  Delivered-cons :
      (c : List ℕ) (cs : List (List ℕ)) (s r : S) (len : ℕ) (message w tail : List ℕ)
      → 1 ≤ length c
      → length message + length (concat (c ∷ cs)) ≡ len
      → (p : Passes write_message read_message Agree s r c)
      → Delivered p.sender p.receiver len
          (message ++ c)
          (w ++ (to_be_bytes 2 (length p.out) ++ p.out))
          tail
          cs
      → Delivered s r len message w tail (c ∷ cs)
  Delivered-cons c cs s r len message w tail some_bytes whole p d =
      let frame : List ℕ = to_be_bytes 2 (length p.out) ++ p.out in
      let w' : List ℕ = w ++ frame in
      let sent : sends s w (c ∷ cs) ≡ sends p.sender w' cs = send_chunks-cons c cs s r w p in
      record {
        bytes = frame ++ d.bytes;
        receiver = d.receiver;
        done = ap (λ x. x.2) sent ∙ d.done;
        written = ap (λ x. x.1) sent ∙ d.written ∙ append_assoc w frame d.bytes;
        many = omega (arith, d.many, length-frame p.out d.bytes);
        received = λ fuel le. rw (append_assoc frame d.bytes tail) (
            received-cons c cs s r len message w' tail
              (omega (arith, whole, some_bytes, length-append c (concat cs))) p d fuel le);
        agree = subst (λ x. Agree x.0 d.receiver) (sym sent) d.agree;
      }

  pub send_chunks-Delivered :
      (cs : List (List ℕ)) (s r : S) (len : ℕ) (message w tail : List ℕ)
      → Agree s r
      → AreChunks max_chunk cs
      → length message + length (concat cs) ≡ len
      → Delivered s r len message w tail cs
  unfolding send_chunks finish complete
  send_chunks-Delivered [] s r len message w tail a sizes whole = record {
    bytes = [];
    receiver = r;
    done = refl;
    written = sym (append-nil w);
    many = omega arith;
    received = λ fuel le. rw (append-nil message) (ground arith);
    agree = a;
  }
  send_chunks-Delivered (c ∷ cs) s r len message w tail a (some_bytes, few_bytes, sizes) whole =
      let p = passes s r c a few_bytes in
      Delivered-cons c cs s r len message w tail some_bytes whole p (
        send_chunks-Delivered cs p.sender p.receiver len (message ++ c) _ tail p.agree sizes
          (omega (arith, whole, length-append message c, length-append c (concat cs))))
