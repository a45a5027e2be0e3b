-- ===== src/Lan/Node.antt =====
-- crates/cled-lan/src/node.rs: the running sync node. The state that its tasks share is a record, and
-- each function that a task runs under the locks is a function of it. An instant counts nanoseconds;
-- the clocks, the random bytes, whether a save reaches the disk, and what a connection's other side
-- did are arguments. A connection's channel is named by the connection's id.
pub mod Group
pub mod Pairing
pub mod Session
pub mod Incoming
pub mod Dialing
pub mod Crossing
pub mod Waiting
pub mod Guesses
pub mod Requests
pub mod Unsaved
pub mod Links
pub mod Trust
pub mod Handle
pub mod Exchange
use cled.Common.{
  Bool, List, Option, [], contains, false, if◌then◌else◌, is_some, leb, ltb, map, min, nat_eq, none,
  not, some, true, ℕ, ◌&&◌, ◌*◌, ◌++◌, ◌-◌, ◌==◌, ◌||◌, ◌∷◌,
}
use cled.Common.Map
use cled.Clipboard.Content.{Chars}
use cled.Sync.Item.{DeviceId, ClipboardItem}
use cled.Lan.Addr.{SocketAddr, addr_eq}
use cled.Lan.Code.{PairingCode}
use cled.Lan.Peers.{Peer, PeerStore}
use cled.Lan.Peers
use cled.Lan.Wire.{Hello, protocol_version}

abbrev pub Instant : Type 0
Instant = ℕ

abbrev pub second : ℕ
second = 1000000000

abbrev pub max_backoff : ℕ
max_backoff = 30 * second

abbrev pub code_lifetime : ℕ
code_lifetime = 120 * second

abbrev pub max_pairing_failures : ℕ
max_pairing_failures = 3

abbrev pub clock_skew_warning_ms : ℕ
clock_skew_warning_ms = 5000

abbrev fallback_dial_intervals : ℕ
fallback_dial_intervals = 3

pub data Event : Type 0 where
  peers_changed : Event
  item_received : ClipboardItem → DeviceId → Event
  paired : DeviceId → Chars → Event
  pairing_code_changed : Option PairingCode → Event
  removed_by : DeviceId → Chars → Event
  clock_skew : DeviceId → ℕ → Event

pub record PeerStatus : Type 0 where
  pub device_id : DeviceId
  pub name : Chars
  pub online : Bool

-- The outgoing channel of a connection is found by `id`.
pub record Conn : Type 0 where
  pub id : ℕ
  pub initiator : DeviceId

pub data Outgoing : Type 0 where
  message : List ℕ → Outgoing
  last : List ℕ → Outgoing
  close : Outgoing

pub record PairingSession : Type 0 where
  pub code : PairingCode
  pub expires_at : Instant
  pub failures : ℕ

pub record Backoff : Type 0 where
  pub next_attempt : Instant
  pub delay : ℕ

-- `Inner`, with what was sent on the channels, the events, and the dial tasks that were spawned, each
-- in order. `announced` is the name under which discovery shows the device as waiting to pair.
pub record Node : Type 0 where
  pub device_id : DeviceId
  pub name : Chars
  pub listen_port : ℕ
  pub redial_interval : ℕ
  pub started : Instant
  pub has_discovery : Bool
  pub announced : Option Chars
  pub peers : PeerStore
  pub conns : List (DeviceId × Conn)
  pub dialing : List DeviceId
  pub backoff : List (DeviceId × Backoff)
  pub pairing : Option PairingSession
  pub next_conn_id : ℕ
  pub offline_since : List (DeviceId × Instant)
  pub events : List Event
  pub sent : List (ℕ × Outgoing)
  pub spawned : List DeviceId

abbrev pub emit : Node → Event → Node
emit n e = record n { events = n.events ++ e ∷ [] }

abbrev pub send : Node → Conn → Outgoing → Node
send n c out = record n { sent = n.sent ++ (c.id, out) ∷ [] }

unfoldable pub peer_statuses : Node → List PeerStatus
peer_statuses n =
    map
      (λ (p : Peer). record {
        device_id = p.device_id;
        name = p.name;
        online = Map.contains_key n.conns p.device_id;
      })
      n.peers.peers

unfoldable own_hello : Node → ℕ → Hello
own_hello n now_ms = record {
  protocol = protocol_version;
  device_id = n.device_id;
  name = n.name;
  listen_port = n.listen_port;
  time_ms = now_ms;
}

unfoldable pub send_to_all : Node → List ℕ → Node
send_to_all n bytes = record n {
  sent = n.sent ++ map (λ (c : DeviceId × Conn). (c.1.id, message bytes)) n.conns;
}

unfoldable pub is_connected : Node → DeviceId → Bool
is_connected n peer = Map.contains_key n.conns peer

-- `register` once the connection is kept.
abbrev pub enter : Node → DeviceId → Conn → Node
enter n peer conn = record n {
  conns = Map.insert n.conns peer conn;
  offline_since = Map.remove n.offline_since peer;
}

unfoldable pub register : Node → DeviceId → Conn → Node × Bool
register n peer conn =
    if not (is_some (Peers.get n.peers peer))
    then (n, false)
    else let preferred = min n.device_id peer in
      elim (Map.get n.conns peer) [
        | none ↦ (enter n peer conn, true)
        | some existing ↦
            if existing.initiator == preferred || not (conn.initiator == preferred)
            then (n, false)
            else (enter (send n existing close) peer conn, true)
      ]

unfoldable pub unregister : Node → DeviceId → ℕ → Instant → Node
unregister n peer conn_id now = elim (Map.get n.conns peer) [
  | none ↦ n
  | some c ↦
      if c.id == conn_id
      then record n {
        conns = Map.remove n.conns peer;
        offline_since = Map.insert n.offline_since peer now;
      }
      else n
]

abbrev unwrap_or {ℓ} : {A : Type ℓ} → Option A → A → A
unwrap_or none a = a
unwrap_or (some b) a = b

unfoldable pub should_dial : Node → DeviceId → Instant → Bool
should_dial n peer now =
    if ltb n.device_id peer
    then true
    else leb (n.redial_interval * fallback_dial_intervals)
        (now - unwrap_or (Map.get n.offline_since peer) n.started)

-- `LanNode::should_connect`.
unfoldable pub should_connect : Node → DeviceId → Instant → Bool
should_connect n peer now =
    is_some (Peers.get n.peers peer) && not (is_connected n peer) && should_dial n peer now

-- The discovered addresses, best first, then the last one that worked.
unfoldable pub addresses_of : List SocketAddr → Peer → List SocketAddr
addresses_of discovered peer = elim peer.last_address [
  | none ↦ discovered
  | some worked ↦ if contains discovered worked then discovered else discovered ++ worked ∷ []
]
