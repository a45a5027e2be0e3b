-- ===== src/Desktop/Tunnel.antt =====
-- apps/desktop/src-tauri/src/tunnel.rs: byte streams to paired devices through the relay, and their
-- frames. A stream is named by its tunnel's key. The tasks of a tunnel are `pump`, which reads what the
-- session wrote, and the end of the one that writes to the session, after which `listening` is false.
pub mod Frames
pub mod Table
pub mod Delivery
pub mod Dialed
pub mod Outcome
use cled.Common.{
  Bool, Eq, List, Option, [], any, arith, contains, drop, false, if◌then◌else◌, leb, length, map,
  min, nat_eq, none, not, some, take, true, ℕ, ◌%◌, ◌&&◌, ◌*◌, ◌++◌, ◌+◌, ◌/◌, ◌==◌, ◌^◌, ◌||◌, ◌↔◌,
  ◌∷◌, ◌≡◌,
}
use cled.Common.Map
use cled.Common.Bytes.{to_be_bytes, from_be_bytes}
use cled.Common.Utf8.{as_bytes, from_utf8}
use cled.Clipboard.Content.{Chars}
use cled.Sync.Item.{DeviceId}
use cled.Sync.Item.Text.{UuidText, parse_id}
use cled.Lan.Node.{Node, Instant, PeerStatus, peer_statuses, should_connect}

abbrev pub kind_open : ℕ
kind_open = 1

abbrev pub kind_data : ℕ
kind_data = 2

abbrev pub kind_close : ℕ
kind_close = 3

abbrev flag_opener : ℕ
flag_opener = 1

abbrev pub max_data_bytes : ℕ
max_data_bytes = 64 * 1024

pub record Key : Type 0 where
  pub peer : DeviceId
  pub id : ℕ
  pub opened_here : Bool

abbrev bool_beq : Bool → Bool → Bool
bool_beq true b = b
bool_beq false b = not b

abbrev key_beq : Key → Key → Bool
key_beq j k = j.peer == k.peer && (j.id == k.id && bool_beq j.opened_here k.opened_here)

pub key_eq_iff : (j k : Key) → (key_beq j k ≡ true) ↔ (j ≡ k)
key_eq_iff j k = ground arith

instance abbrev pub key_eq : Eq Key
key_eq = record { eq = key_beq; eq_iff = key_eq_iff }

pub record Pumped : Type 0 where
  pub key : Key
  pub bytes : Option (List ℕ)

pub data Incoming : Type 0 where
  opened : (from : DeviceId) → (stream : Key) → Incoming
  reply : List ℕ → Incoming
  nothing invalid : Incoming

-- `to_session` is what was sent on the channel to the session.
pub record Tunnel : Type 0 where
  pub to_session : List (List ℕ)
  pub listening : Bool

-- `pumped` is what waits in the channel.
pub record Tunnels : Type 0 where
  pub next_id : ℕ
  pub table : List (Key × Tunnel)
  pub pumped : List Pumped

-- What a call starts on the node.
pub data Session : Type 0 where
  accept_over : (from : DeviceId) → (stream : Key) → Session
  connect_over : (peer : DeviceId) → (stream : Key) → Session
  pair_over : (device : DeviceId) → (stream : Key) → (code : Chars) → Session

-- `Tunnels::new`.
abbrev pub new_tunnels : Tunnels
new_tunnels = record { next_id = 1; table = []; pumped = [] }

-- `Tunnels::has`.
unfoldable pub has : Tunnels → DeviceId → Bool
has s peer = any (λ (e : Key × Tunnel). e.0.peer == peer) s.table

-- `Tunnels::create`. The stream it returns is the one of the key.
unfoldable pub create : Tunnels → Key → Tunnels
create s key = record s {
  table = Map.insert s.table key (record { to_session = []; listening = true });
}

-- No bytes are the end of the stream.
abbrev pub read_bytes : List ℕ → Option (List ℕ)
read_bytes [] = none
read_bytes (b ∷ bs) = some (b ∷ bs)

-- One turn of the task that `create` starts: it reads at most `count` of the bytes that the session
-- wrote, and ends the stream when there are none. Dropping the tunnel aborts it.
unfoldable pub pump : Tunnels → Key → ℕ → List ℕ → Tunnels
pump s key count written =
    if Map.contains_key s.table key
    then record s {
      pumped =
          s.pumped
          ++ record { key = key; bytes = read_bytes (take (min count max_data_bytes) written) }
            ∷ [];
    }
    else s

module _ (u : UuidText) where
  -- A device id has 36 characters, so its length fits in the byte.
  unfoldable pub encode : ℕ → Key → List ℕ → List ℕ
  encode kind key bytes =
      let device = as_bytes (u.display key.peer) in
      kind
      ∷ (if key.opened_here then flag_opener else 0)
      ∷ (to_be_bytes 4 key.id ++ (length device ∷ (device ++ bytes)))

-- `split_at_checked`.
unfoldable pub split_at_checked : List ℕ → ℕ → Option (List ℕ × List ℕ)
split_at_checked bytes n = if leb n (length bytes) then some (take n bytes, drop n bytes) else none

-- `matches!(kind, KIND_OPEN | KIND_DATA | KIND_CLOSE)`.
abbrev pub is_kind : ℕ → Bool
is_kind kind = kind == kind_open || (kind == kind_data || kind == kind_close)

unfoldable pub valid_data : ℕ → List ℕ → Bool
valid_data kind bytes =
    if kind == kind_data
    then leb 1 (length bytes) && leb (length bytes) max_data_bytes
    else length bytes == 0

-- The branches of `on_frame` for `open`, the first one for a tunnel that was opened here.
unfoldable pub on_open : Tunnels → Key → Bool → Tunnels × Incoming
on_open s key true = (s, invalid)
on_open s key false =
    (create (record s { table = Map.remove s.table key }) key, opened key.peer key)

module _ (u : UuidText) where
  -- The device that a frame names.
  unfoldable pub frame_peer : List ℕ → Option DeviceId
  frame_peer device = elim (from_utf8 device) [ none ↦ none | some text ↦ parse_id u text ]

  -- What follows the header of seven bytes.
  unfoldable pub decode_rest : ℕ → ℕ → ℕ → ℕ → List ℕ → Option (ℕ × Key × List ℕ)
  decode_rest kind flags id len rest = elim (split_at_checked rest len) [
    | none ↦ none
    | some (device, bytes) ↦ elim (frame_peer device) [
      | none ↦ none
      | some peer ↦
          if valid_data kind bytes
          then some (kind, record { peer = peer; id = id; opened_here = flags % 2 == 0 }, bytes)
          else none
    ]
  ]

  -- The flags may have no bit but the lowest.
  unfoldable pub decode : List ℕ → Option (ℕ × Key × List ℕ)
  decode (kind ∷ flags ∷ a ∷ b ∷ c ∷ d ∷ len ∷ rest) =
      if not (is_kind kind) || not (flags / 2 == 0)
      then none
      else decode_rest kind flags (from_be_bytes (a ∷ b ∷ c ∷ d ∷ [])) len rest
  decode _ = none

  -- `Tunnels::open`, with the key of the stream and the frame.
  unfoldable pub open_tunnel : Tunnels → DeviceId → Tunnels × Key × List ℕ
  open_tunnel s peer =
      let key : Key = record { peer = peer; id = s.next_id; opened_here = true } in
      let s' = record s { next_id = (s.next_id + 1) % 2 ^ 32 } in
      (create s' key, key, encode u kind_open key [])

  unfoldable pub on_pumped : Tunnels → Pumped → Tunnels × Option (List ℕ)
  on_pumped s p = if not (Map.contains_key s.table p.key) then (s, none) else elim p.bytes [
    | some bytes ↦ (s, some (encode u kind_data p.key bytes))
    | none ↦ (record s { table = Map.remove s.table p.key }, some (encode u kind_close p.key []))
  ]

  -- The branch of `on_frame` for data, with the tunnel of the key.
  unfoldable pub on_data : Tunnels → Key → List ℕ → Option Tunnel → Tunnels × Incoming
  on_data s key bytes none =
      (record s { table = Map.remove s.table key }, reply (encode u kind_close key []))
  on_data s key bytes (some tunnel) =
      if tunnel.listening
      then (
        record s {
          table =
              Map.insert s.table key
                (record tunnel { to_session = tunnel.to_session ++ bytes ∷ [] });
        },
        nothing,
      )
      else (record s { table = Map.remove s.table key }, reply (encode u kind_close key []))

  -- The `match` of `on_frame` on a frame that is valid.
  unfoldable pub on_kind : Tunnels → ℕ → Key → List ℕ → Tunnels × Incoming
  on_kind s kind key bytes =
      if kind == kind_open
      then on_open s key key.opened_here
      else if kind == kind_data
      then on_data s key bytes (Map.get s.table key)
      else (record s { table = Map.remove s.table key }, nothing)

  unfoldable pub on_frame : Tunnels → List ℕ → Tunnels × Incoming
  on_frame s frame = elim (decode frame) [
    | none ↦ (s, invalid)
    | some (kind, key, bytes) ↦ on_kind s kind key bytes
  ]

  -- `Tunnels::receive`, where `node` says whether there is a node. Without one the stream is dropped,
  -- which its `pump` sees as an end.
  unfoldable pub receive : Tunnels → List ℕ → Bool → Tunnels × Option (List ℕ) × List Session
  receive s frame node =
      let (s', incoming) = on_frame s frame in
      elim incoming [
        | opened from stream ↦ (s', none, if node then accept_over from stream ∷ [] else [])
        | reply frame ↦ (s', some frame, [])
        | nothing ↦ (s', none, [])
        | invalid ↦ (s', none, [])
      ]

  -- The loop of `Tunnels::dial` over the node's peers, which stay as they are. Each new tunnel starts
  -- a session, and `connect_over` returns at once, so that the peer is not connected yet.
  unfoldable pub dial_all :
      Tunnels → Node → Instant → List DeviceId → Tunnels × List (List ℕ) × List Session
  dial_all s n now [] = (s, [], [])
  dial_all s n now (peer ∷ peers) =
      let next =
        if has s peer || not (should_connect n peer now) then none else some (open_tunnel s peer) in
      elim next [
        | none ↦ dial_all s n now peers
        | some (s', key, frame) ↦
            let (s'', frames, sessions) = dial_all s' n now peers in
            (s'', frame ∷ frames, connect_over peer key ∷ sessions)
      ]

  -- `Tunnels::dial`.
  unfoldable pub dial : Tunnels → Node → Instant → Tunnels × List (List ℕ) × List Session
  dial s n now = dial_all s n now (map (λ (p : PeerStatus). p.device_id) (peer_statuses n))

  -- The loop of `Tunnels::pair` over the devices of the account.
  unfoldable pub pair_all :
      Tunnels → List DeviceId → Chars → List Chars → Tunnels × List (List ℕ) × List Session
  pair_all s paired code [] = (s, [], [])
  pair_all s paired code (device ∷ devices) = elim (parse_id u device) [
    | none ↦ pair_all s paired code devices
    | some id ↦
        let next = if contains paired id then none else some (open_tunnel s id) in
        elim next [
          | none ↦ pair_all s paired code devices
          | some (s', key, frame) ↦
              let (s'', frames, sessions) = pair_all s' paired code devices in
              (s'', frame ∷ frames, pair_over id key code ∷ sessions)
        ]
  ]

  -- `Tunnels::pair`, but for the outcome.
  unfoldable pub pair : Tunnels → List Chars → Node → Chars → Tunnels × List (List ℕ) × List Session
  pair s devices n code =
      pair_all s (map (λ (p : PeerStatus). p.device_id) (peer_statuses n)) code devices
