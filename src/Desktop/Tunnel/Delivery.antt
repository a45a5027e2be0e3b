-- ===== src/Desktop/Tunnel/Delivery.antt =====
-- From a session to the session on the other side, in apps/desktop/src-tauri/src/tunnel.rs.
use cled.Common.{
  List, [], ap, arith, length, length-take, min, refl, some, take, true, ℕ, ◌++◌, ◌<◌, ◌^◌, ◌∙◌,
  ◌∷◌, ◌≡◌,
}
use cled.Common.Map
use cled.Sync.Item.{DeviceId}
use cled.Sync.Item.Text.{UuidText}
use cled.Desktop.Tunnel.{
  Key, key_eq, Tunnel, Tunnels, nothing, kind_data, max_data_bytes, pump, read_bytes, encode,
  valid_data, on_pumped, on_data, on_kind, on_frame,
}
use cled.Desktop.Tunnel.Frames.{mirrored, decode-encode}
use cled.Desktop.Tunnel.Table.{on_frame-decoded}

read_bytes-some : (bytes : List ℕ) → 0 < length bytes → read_bytes bytes ≡ some bytes
read_bytes-some [] h = absurd (omega arith)
read_bytes-some (b ∷ bs) h = refl

pump_open :
    (s : Tunnels) (key : Key) (count : ℕ) (written : List ℕ) (here : Tunnel)
    → Map.get s.table key ≡ some here
    → (pump s key count written).pumped
      ≡ s.pumped
        ++ record { key = key; bytes = read_bytes (take (min count max_data_bytes) written) } ∷ []
unfolding pump
pump_open s key count written here h = rw (pump, h) refl

-- The frame of a piece of data is valid.
valid_read :
    (count : ℕ) (written : List ℕ)
    → 0 < count
    → 0 < length written
    → valid_data kind_data (take (min count max_data_bytes) written) ≡ true
unfolding valid_data
valid_read count written hc hw = ground (arith, length-take (min count max_data_bytes) written)

module _ (u : UuidText) where
  on_data_listening :
      (s : Tunnels) (key : Key) (bytes : List ℕ) (t : Tunnel)
      → t.listening ≡ true
      → on_data u s key bytes (some t) ≡ (
        record s {
          table = Map.insert s.table key (record t { to_session = t.to_session ++ bytes ∷ [] });
        },
        nothing,
      )
  unfolding on_data
  on_data_listening s key bytes t h = rw (on_data, h) refl

  -- What a tunnel's task reads of the bytes that a session wrote, at least one and at most 64 KiB, is sent
  -- as one frame; and when the relay delivers that frame, with the id of the sending device in it, those
  -- bytes are handed, after what came before, to the other side's session, if its end of the tunnel is open.
  pub on_frame-on_pumped :
      (s r : Tunnels) (key : Key) (source : DeviceId) (count : ℕ) (written : List ℕ)
      (here there : Tunnel)
      → Map.get s.table key ≡ some here
      → Map.get r.table (record (mirrored key) { peer = source }) ≡ some there
      → there.listening ≡ true
      → 0 < count
      → 0 < length written
      → source < 2 ^ 128
      → key.id < 2 ^ 32
      → let bytes = take (min count max_data_bytes) written in
        ((pump s key count written).pumped
          ≡ s.pumped ++ record { key = key; bytes = some bytes } ∷ [])
        × (on_pumped u s (record { key = key; bytes = some bytes })
            ≡ (s, some (encode u kind_data key bytes)))
        × (on_frame u r (encode u kind_data (record key { peer = source }) bytes) ≡ (
          record r {
            table =
                Map.insert r.table
                  (record (mirrored key) { peer = source })
                  (record there { to_session = there.to_session ++ bytes ∷ [] });
          },
          nothing,
        ))
  unfolding on_pumped on_kind
  on_frame-on_pumped s r key source count written here there hs hr hl hc hw hp hi = (
    pump_open s key count written here hs
        ∙ ap (λ o. s.pumped ++ record { key = key; bytes = o } ∷ [])
            (read_bytes-some _ (ground (arith, length-take (min count max_data_bytes) written))),
    rw (on_pumped, hs) refl,
    on_frame-decoded u r _ kind_data (record (mirrored key) { peer = source }) _
          (decode-encode u kind_data (record key { peer = source }) _ refl hp hi
            (valid_read count written hc hw))
        ∙ ap (on_data u r _ _) hr
        ∙ on_data_listening r _ _ there hl,
  )
