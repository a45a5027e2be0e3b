-- ===== src/Lan/Node/Exchange.antt =====
-- The exchange of a pairing in crates/cled-lan/src/node.rs, SPAKE2 and then Noise, on both sides. SPAKE2 is the
-- crate spake2; what the handshake and the greetings come to are arguments.
pub mod Paired
pub mod Both
use cled.Common.{List, Option, if◌then◌else◌, length, nat_eq, none, some, ℕ, ◌++◌, ◌==◌, ◌≡◌}
use cled.Common.Bytes.{to_be_bytes}
use cled.Sync.Item.{DeviceId}
use cled.Lan.Code.{PairingCode}
use cled.Lan.Error.{Result, ok, err, wrong_code, ◌>>=◌}
use cled.Lan.Noise.{read_exact}
use cled.Lan.Node.Incoming.{pairing_prologue}
use cled.Lan.Wire.{Hello}

-- `Spake2::<Ed25519Group>`: a start with the password, both identities and random bytes gives a state and the message
-- to send; the end takes the message of the other side.
pub record Spake2 (S : Type 0) : Type 0 where
  pub start_a : (password a b : List ℕ) (random : ℕ) → S × List ℕ
  pub start_b : (password a b : List ℕ) (random : ℕ) → S × List ℕ
  pub finish : S → List ℕ → Option (List ℕ)

-- What its documentation says: with one password and the same identities both sides come to one key, of 32 bytes,
-- and all messages are of one length.
pub record IsSpake2 (S : Type 0) (p : Spake2 S) : Type 0 where
  pub message_length : ℕ
  pub length_a : (w a b : List ℕ) (r : ℕ) → length (p.start_a w a b r).1 ≡ message_length
  pub length_b : (w a b : List ℕ) (r : ℕ) → length (p.start_b w a b r).1 ≡ message_length
  pub shared : (w a b : List ℕ) (r s : ℕ) → List ℕ
  pub length_shared : (w a b : List ℕ) (r s : ℕ) → length (shared w a b r s) ≡ 32
  pub finish_a :
      (w a b : List ℕ) (r s : ℕ)
      → p.finish (p.start_a w a b r).0 (p.start_b w a b s).1 ≡ some (shared w a b r s)
  pub finish_b :
      (w a b : List ℕ) (r s : ℕ)
      → p.finish (p.start_b w a b s).0 (p.start_a w a b r).1 ≡ some (shared w a b r s)

unfoldable pub spake_key : Option (List ℕ) → Result (List ℕ)
spake_key none = err wrong_code
spake_key (some key) = if length key == 32 then ok key else err wrong_code

-- What the Noise handshake starts from, and the stream that it reads.
pub record Keyed : Type 0 where
  pub psk : List ℕ
  pub prologue : List ℕ
  pub stream : List ℕ

unfoldable pub or_wrong_code {ℓ} : {A : Type ℓ} → Result A → Result A
or_wrong_code (ok a) = ok a
or_wrong_code (err e) = err wrong_code

module _ {S : Type 0} (p : Spake2 S) where
  -- A side's key, from its state, the length of the messages, and the stream.
  unfoldable pub agree_key : S → ℕ → List ℕ → List ℕ → Result Keyed
  agree_key state len prologue stream = read_exact len stream >>= λ inbound.
      spake_key (p.finish state inbound.0) >>= λ psk.
      ok (record { psk = psk; prologue = prologue; stream = inbound.1 })

  -- What the side that shows the code sends: its id, and its message.
  unfoldable pub listener_sends :
      (code : PairingCode) → (me joiner : DeviceId) → (random : ℕ) → List ℕ
  listener_sends code me joiner random =
      to_be_bytes 16 me ++ (p.start_a code (to_be_bytes 16 me) (to_be_bytes 16 joiner) random).1

  unfoldable pub listener_key :
      (code : PairingCode) → (me joiner : DeviceId) → (random : ℕ) → List ℕ → Result Keyed
  listener_key code me joiner random stream =
      let started = p.start_a code (to_be_bytes 16 me) (to_be_bytes 16 joiner) random in
      agree_key started.0 (length started.1) (pairing_prologue me joiner) stream

  -- The message of the side that types the code, which it sends when it has read the other one.
  unfoldable pub joiner_sends :
      (code : PairingCode) → (me listener : DeviceId) → (random : ℕ) → List ℕ
  joiner_sends code me listener random =
      (p.start_b code (to_be_bytes 16 listener) (to_be_bytes 16 me) random).1

  unfoldable pub joiner_key :
      (code : PairingCode) → (me listener : DeviceId) → (random : ℕ) → List ℕ → Result Keyed
  joiner_key code me listener random stream =
      let started = p.start_b code (to_be_bytes 16 listener) (to_be_bytes 16 me) random in
      agree_key started.0 (length started.1) (pairing_prologue listener me) stream

  -- `pairing_exchange`, where `handshaken` gives the static key of the other side, and `met` its hello.
  unfoldable pub pairing_exchange :
      (Keyed → Result ℕ)
      → Result Hello
      → (me joiner : DeviceId) → (random : ℕ) → List ℕ
      → PairingCode
      → Result (Hello × ℕ)
  pairing_exchange handshaken met me joiner random stream code =
      listener_key code me joiner random stream >>= λ keyed.
      or_wrong_code (handshaken keyed) >>= λ public_key. met >>= λ hello. ok (hello, public_key)

  -- `pairing_exchange_joiner`. A greeting that fails is taken for a wrong code too.
  unfoldable pub pairing_exchange_joiner :
      (Keyed → Result ℕ)
      → Result Hello
      → (me : DeviceId) → (random : ℕ) → List ℕ
      → (listener : DeviceId) → PairingCode
      → Result (Hello × ℕ)
  pairing_exchange_joiner handshaken met me random stream listener code =
      joiner_key code me listener random stream >>= λ keyed.
      or_wrong_code (handshaken keyed) >>= λ public_key.
      or_wrong_code met >>= λ hello. ok (hello, public_key)
