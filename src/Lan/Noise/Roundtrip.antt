-- ===== src/Lan/Noise/Roundtrip.antt =====
-- Whole messages of crates/cled-lan/src/noise.rs: `Cipher::send` and `Cipher::recv`.
use cled.Common.{
  List, [], ap, arith, drop, drop-append_at, length, length-append, length-drop, length-take, none,
  refl, some, subst, sym, take, take-append-drop, take-append_at, ℕ, ◌++◌, ◌∙◌, ◌∷◌, ◌≡◌, ◌≤◌,
}
use cled.Common.Bytes.{from_be_bytes-to_be_bytes, to_be_bytes, from_be_bytes, to_le_bytes}
use mathlib.Core.List.{append_assoc}
use cled.Lan.Error.{Result, ok}
use cled.Lan.Wire.{max_message_bytes}
use cled.Lan.Noise.{
  chunks_from, chunks, max_chunk, send_chunks, send, header, receive, finish, recv_loop, recv,
}
use cled.Lan.Noise.Frames.{concat, concat-chunks_from, chunks-append}
use cled.Lan.Noise.Messages.{
  Delivered, Passes, send_chunks-Delivered, recv_loop-frame, send_chunks-cons,
}

length-to_be_bytes_four : (n : ℕ) → length (to_be_bytes 4 n) ≡ 4
unfolding to_be_bytes to_le_bytes
length-to_be_bytes_four n = refl

-- The first chunk of a message: the header, and as much of the message as there is room for.
receive-first :
    (h xs : List ℕ) (len : ℕ)
    → length h ≡ 4
    → from_be_bytes h ≡ len
    → len ≤ max_message_bytes
    → receive none [] (h ++ xs) ≡ ok (len, xs)
unfolding receive header
receive-first h xs len four means small =
    rw (take-append_at 4 h xs four, drop-append_at 4 h xs four, means)
      (ground (arith, length-append h xs))

module _ {S : Type 0} (write_message read_message : S → List ℕ → Result (S × List ℕ))
    (Agree : S → S → Type 0)
    (passes : (s r : S) (chunk : List ℕ)
      → Agree s r
      → length chunk ≤ max_chunk
      → Passes write_message read_message Agree s r chunk) where
  send-first :
      (s r : S) (message c : List ℕ) (cs : List (List ℕ))
      → length message ≤ max_message_bytes
      → chunks max_chunk (to_be_bytes 4 (length message) ++ message) ≡ c ∷ cs
      → (p : Passes write_message read_message Agree s r c)
      → send write_message read_message s [] message
        ≡ send_chunks write_message read_message p.sender (to_be_bytes 2 (length p.out) ++ p.out) cs
  unfolding send
  send-first s r message c cs small split p =
      rw split
        (ground (arith, send_chunks-cons write_message read_message Agree passes c cs s r [] p))

  recv-first :
      (s r receiver : S) (h xs bytes message tail : List ℕ) (len : ℕ)
      → receive none [] (h ++ xs) ≡ ok (len, xs)
      → (p : Passes write_message read_message Agree s r (h ++ xs))
      → ((fuel : ℕ)
          → length bytes ≤ fuel
          → finish p.receiver len xs
              (bytes ++ tail)
              (recv_loop write_message read_message fuel p.receiver (some len) xs (bytes ++ tail))
            ≡ ok (receiver, message, tail))
      → recv write_message read_message r
          (((to_be_bytes 2 (length p.out) ++ p.out) ++ bytes) ++ tail)
        ≡ ok (receiver, message, tail)
  unfolding recv
  recv-first s r receiver h xs bytes message tail len got p d =
      rw (append_assoc (to_be_bytes 2 (length p.out) ++ p.out) bytes tail) (
        recv_loop-frame write_message read_message Agree passes _ r p.receiver none [] p.out
          (h ++ xs) (bytes ++ tail) p.short p.reads
        ∙ rw got (
            d _ (
              omega (
                arith,
                length-append (to_be_bytes 2 (length p.out) ++ p.out) (bytes ++ tail),
                length-append bytes tail,
              ))))

  -- The message was sent, and the other end receives it with what follows it left in the stream.
  abbrev Arrives : S → S → List ℕ → List ℕ → Type 0
  Arrives s r message tail =
      (receiver : S) × ((send write_message read_message s [] message).2 ≡ ok tt)
      × (recv write_message read_message r
            ((send write_message read_message s [] message).1 ++ tail)
          ≡ ok (receiver, message, tail))
      × Agree (send write_message read_message s [] message).0 receiver

  -- The same for a message that is split in its first chunk, with the header, and the others.
  Arrives-split :
      (s r : S) (h xs message tail : List ℕ) (cs : List (List ℕ))
      → length message ≤ max_message_bytes
      → receive none [] (h ++ xs) ≡ ok (length message, xs)
      → chunks max_chunk (to_be_bytes 4 (length message) ++ message) ≡ (h ++ xs) ∷ cs
      → xs ++ concat cs ≡ message
      → (p : Passes write_message read_message Agree s r (h ++ xs))
      → Delivered write_message read_message Agree passes p.sender p.receiver
          (length message)
          xs
          (to_be_bytes 2 (length p.out) ++ p.out)
          tail
          cs
      → Arrives s r message tail
  Arrives-split s r h xs message tail cs small got split whole p d =
      let sent = send-first s r message (h ++ xs) cs small split p in
      (
        d.receiver,
        ap (λ x. x.2) sent ∙ d.done,
        subst (λ b. recv write_message read_message r (b ++ tail) ≡ ok (d.receiver, message, tail))
            (sym (ap (λ x. x.1) sent ∙ d.written))
            (recv-first s r d.receiver h xs d.bytes message tail (length message) got p (λ fuel le.
              d.received fuel (omega (arith, d.many)) ∙ ap (λ m. ok (d.receiver, m, tail)) whole)),
        subst (λ x. Agree x.0 d.receiver) (sym sent) d.agree,
      )

  -- What is sent is received: a message of at most 16 MiB, to two ends that agree, reaches the other
  -- side whole, with what follows it left in the stream, and the two ends agree afterwards. The ends
  -- agree as long as each chunk that one of them encrypts is what the other decrypts.
  pub recv-send :
      (s r : S) (message tail : List ℕ)
      → Agree s r
      → length message ≤ max_message_bytes
      → Arrives s r message tail
  recv-send s r message tail a small =
      let h = to_be_bytes 4 (length message) in
      let xs = take 65515 message in
      let rest = drop 65515 message in
      let four = length-to_be_bytes_four (length message) in
      let means = from_be_bytes-to_be_bytes 4 (length message) (omega arith) in
      let (fuel, enough, split) =
        chunks-append max_chunk 65515 h message (omega (arith, four)) (omega (arith, four)) in
      let (whole, sizes) =
        concat-chunks_from max_chunk fuel rest (omega arith)
          (omega (arith, enough, length-drop 65515 message)) in
      let p =
        passes s r (h ++ xs) a
          (omega (arith, four, length-append h xs, length-take 65515 message)) in
      Arrives-split s r h xs message tail (chunks_from max_chunk fuel rest) small
        (receive-first h xs (length message) four means small) split
        (ap (λ ys. xs ++ ys) whole ∙ take-append-drop 65515 message) p
        (send_chunks-Delivered write_message read_message Agree passes _ p.sender p.receiver _ xs _
          tail p.agree sizes
          (omega (arith, ap length whole, length-take 65515 message, length-drop 65515 message)))
