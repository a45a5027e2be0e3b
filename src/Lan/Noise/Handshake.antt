-- ===== src/Lan/Noise/Handshake.antt =====
-- `handshake` of crates/cled-lan/src/noise.rs, on the state of the crate snow.
pub mod Rounds
use cled.Common.{Bool, List, Option, if◌then◌else◌, nat_beq, nat_eq, none, some, suc, zero, ℕ, ◌≡◌}
use cled.Lan.Error.{Result, ok, err, io, other, ◌>>=◌}
use cled.Lan.Keys.{to_key}
use cled.Lan.Noise.{write_frame, read_frame}

-- `snow::HandshakeState`: whether it is finished, whose turn it is, writing a message, reading one, and the
-- static key of the other side.
pub record HandshakeState (S : Type 0) : Type 0 where
  pub is_handshake_finished : S → Bool
  pub is_my_turn : S → Bool
  pub write_message : S → Result (S × List ℕ)
  pub read_message : S → List ℕ → Result S
  pub get_remote_static : S → Option (List ℕ)

-- The state, what is in the writer, and the stream that is read.
pub record Ends (S : Type 0) : Type 0 where
  pub state : S
  pub writer : List ℕ
  pub stream : List ℕ

abbrev pub with_written : {S : Type 0} → Ends S → S → List ℕ × Result (Unit {0}) → Result (Ends S)
with_written e s (writer, ok done) = ok (record e { state = s; writer = writer })
with_written e s (writer, err why) = err why

abbrev not_sent : Option (List ℕ) → Result (List ℕ)
not_sent none = err other
not_sent (some key) = to_key key

module _ {S : Type 0} (h : HandshakeState S) where
  unfoldable pub write_turn : Ends S → Result (Ends S)
  write_turn e =
      h.write_message e.state >>= λ out. with_written e out.0 (write_frame e.writer out.1)

  unfoldable pub read_turn : Ends S → Result (Ends S)
  read_turn e = read_frame e.stream >>= λ frame.
      h.read_message e.state frame.0 >>= λ s. ok (record e { state = s; stream = frame.1 })

  -- One turn of the loop.
  unfoldable pub exchange_turn : Ends S → Result (Ends S)
  exchange_turn e = if h.is_my_turn e.state then write_turn e else read_turn e

  -- The loop, on fuel: the number of messages that are left is enough.
  unfoldable pub exchange : ℕ → Ends S → Result (Ends S)
  exchange zero e = if h.is_handshake_finished e.state then ok e else err io
  exchange (suc fuel) e =
      let next = exchange_turn e >>= exchange fuel in
      if h.is_handshake_finished e.state then ok e else next

  -- The static key comes with what is left.
  unfoldable pub handshake : ℕ → Ends S → Result (Ends S × List ℕ)
  handshake fuel e =
      exchange fuel e >>= λ e'. not_sent (h.get_remote_static e'.state) >>= λ key. ok (e', key)

-- What the documentation of a pattern says: each message brings it closer to its end by one, and a state is
-- finished when no message is left.
pub record IsPattern (S : Type 0) (h : HandshakeState S) (left : S → ℕ) : Type 0 where
  pub finished : (s : S) → h.is_handshake_finished s ≡ nat_beq (left s) 0
  pub writes : (s t : S) (out : List ℕ) → h.write_message s ≡ ok (t, out) → left s ≡ suc (left t)
  pub reads : (s t : S) (bytes : List ℕ) → h.read_message s bytes ≡ ok t → left s ≡ suc (left t)
