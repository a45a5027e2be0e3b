-- ===== src/Desktop/Tunnel/Frames.antt =====
-- The frames of apps/desktop/src-tauri/src/tunnel.rs: what one side encodes, the other decodes.
use cled.Common.{
  Bool-cases, List, [], all, ap, arith, drop-append_at, inl, inr, length, length-append, ltb,
  nat_eq, not, refl, some, take-append_at, true, ℕ, ◌%◌, ◌++◌, ◌/◌, ◌<◌, ◌==◌, ◌^◌, ◌∙◌, ◌∷◌, ◌≡◌,
}
use cled.Common.Bytes.{to_be_bytes, to_le_bytes, from_be_bytes-to_be_bytes}
use cled.Common.Utf8.{as_bytes, as_bytes-ascii, from_utf8-ascii}
use cled.Clipboard.Content.{Chars}
use cled.Sync.Item.{DeviceId}
use cled.Sync.Item.Text.{UuidText, is_graphic, parse_id-display}
use cled.Desktop.Tunnel.{
  Key, is_kind, valid_data, encode, decode, decode_rest, frame_peer, split_at_checked,
}

-- The same tunnel seen from its other side, where `peer` is the device there.
abbrev pub mirrored : Key → Key
mirrored k = record k { opened_here = not k.opened_here }

ascii_graphic : (t : Chars) → all is_graphic t ≡ true → all (λ c. ltb c 0x80) t ≡ true
ascii_graphic [] h = refl
ascii_graphic (c ∷ cs) h = ground (arith, ascii_graphic cs)

decode_header :
    (u : UuidText) (kind flags id len : ℕ) (rest : List ℕ)
    → is_kind kind ≡ true
    → flags < 2
    → id < 2 ^ 32
    → decode u (kind ∷ flags ∷ (to_be_bytes 4 id ++ len ∷ rest))
      ≡ decode_rest u kind flags id len rest
unfolding decode to_be_bytes to_le_bytes
decode_header u kind flags id len rest hk hf hi =
    let low : (flags / 2 == 0) ≡ true = ground arith in
    rw (hk, low) (ap (λ i. decode_rest u kind flags i len rest) (from_be_bytes-to_be_bytes 4 id hi))

module _ (u : UuidText) where
  device_bytes : (id : DeviceId) → as_bytes (u.display id) ≡ u.display id
  device_bytes id =
      as_bytes-ascii (u.display id) (ascii_graphic (u.display id) (u.display-graphic id))

  frame_peer-display : (id : DeviceId) → id < 2 ^ 128 → frame_peer u (u.display id) ≡ some id
  unfolding frame_peer
  frame_peer-display id h =
      rw
        (
          frame_peer,
          from_utf8-ascii (u.display id) (ascii_graphic (u.display id) (u.display-graphic id)),
        )
        (parse_id-display u id h)

  -- The length of a device id fits in its byte.
  length-device : (id : DeviceId) → length (as_bytes (u.display id)) ≡ 36
  length-device id = rw (device_bytes id) (u.length-display id)

  split_device :
      (peer : DeviceId) (bytes : List ℕ)
      → split_at_checked (u.display peer ++ bytes) 36 ≡ some (u.display peer, bytes)
  unfolding split_at_checked
  split_device peer bytes = ground (
    arith,
    length-append (u.display peer) bytes,
    u.length-display peer,
    take-append_at 36 (u.display peer) bytes (u.length-display peer),
    drop-append_at 36 (u.display peer) bytes (u.length-display peer),
  )

  decode_rest-encoded :
      (kind flags id : ℕ) (peer : DeviceId) (bytes : List ℕ)
      → peer < 2 ^ 128
      → valid_data kind bytes ≡ true
      → decode_rest u kind flags id 36 (u.display peer ++ bytes)
        ≡ some (kind, record { peer = peer; id = id; opened_here = flags % 2 == 0 }, bytes)
  unfolding decode_rest
  decode_rest-encoded kind flags id peer bytes hp hv =
      rw (decode_rest, split_device peer bytes, frame_peer-display peer hp, hv) refl

  -- A frame of a known kind, whose data is allowed for it, is decoded by the other side as that kind, the
  -- same tunnel seen from there, and that data, where the device id has 16 bytes and the tunnel's id 4.
  pub decode-encode :
      (kind : ℕ) (key : Key) (bytes : List ℕ)
      → is_kind kind ≡ true
      → key.peer < 2 ^ 128
      → key.id < 2 ^ 32
      → valid_data kind bytes ≡ true
      → decode u (encode u kind key bytes) ≡ some (kind, mirrored key, bytes)
  unfolding encode
  decode-encode kind key bytes hk hp hi hv =
      rw (device_bytes key.peer, u.length-display key.peer)
        (elim (Bool-cases key.opened_here) [
          | inl here ↦ rw here (
              decode_header u kind 1 key.id 36 (u.display key.peer ++ bytes) hk (omega arith) hi
              ∙ decode_rest-encoded kind 1 key.id key.peer bytes hp hv)
          | inr there ↦ rw there (
              decode_header u kind 0 key.id 36 (u.display key.peer ++ bytes) hk (omega arith) hi
              ∙ decode_rest-encoded kind 0 key.id key.peer bytes hp hv)
        ])
