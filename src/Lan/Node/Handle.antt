-- ===== src/Lan/Node/Handle.antt =====
-- `LanNode` of crates/cled-lan/src/node.rs: what the app calls. What a connection or an exchange comes to is an
-- argument, as in the functions that are called.
use cled.Common.{Bool, List, Option, [], if◌then◌else◌, nat_eq, none, some, ℕ, ◌∷◌}
use cled.Clipboard.Content.{Chars, Image}
use cled.Sync.Item.{DeviceId, ClipboardItem}
use cled.Lan.Addr.{SocketAddr}
use cled.Lan.Code.{PairingCode, parse}
use cled.Lan.Discovery.{Discovery, PairableDevice, pairable, addresses_of}
use cled.Lan.Error.{Result, ok, err, other, ◌>>=◌}
use cled.Lan.Wire.{Message, Hello, item, encode, from_item}
use cled.Lan.Peers.{Peer}
use cled.Lan.Peers
use cled.Lan.Node.{Node, PeerStatus, Outgoing, message, last, close, send_to_all}
use cled.Lan.Node.Dialing.{connect_any}
use cled.Lan.Node.Incoming.{tunnel, Request, handle_incoming}
use cled.Lan.Node.Pairing.{end_pairing, join_pairing_over}

module _ (to_stdvec : Message → Result (List ℕ)) (write_png : Image → Result (List ℕ)) where
  abbrev send_encoded : Node → Result (List ℕ) → Node
  send_encoded n (ok bytes) = send_to_all n bytes
  send_encoded n (err e) = n

  -- `broadcast`. An item that cannot be encoded is not sent.
  unfoldable pub broadcast : Node → ClipboardItem → Node
  broadcast n i = send_encoded n (from_item write_png i >>= λ wire. encode to_stdvec (item wire))

-- `pairable_devices`, with the table of the discovery, if it runs.
unfoldable pairable_devices : List (ℕ × ℕ) → Node → Option Discovery → List PairableDevice
pairable_devices local n none = []
pairable_devices local n (some d) = pairable local d.found n.device_id

-- `cancel_pairing`.
unfoldable cancel_pairing : Node → Node
cancel_pairing n = end_pairing n

-- How the other side of a pairing answers: its id, if it sends one, and what the exchange comes to.
pub record Listener : Type 0 where
  pub id : Option DeviceId
  pub exchange : DeviceId → PairingCode → Result (Hello × ℕ)

module _ (to_stdvec : Message → Result (List ℕ)) (now_ms : ℕ) (disk : Bool) where
  abbrev join_at : Node → PairingCode → Result (Listener × SocketAddr) → Node × Result PeerStatus
  join_at n code (err e) = (n, err e)
  join_at n code (ok (there, address)) =
      join_pairing_over to_stdvec n there.id none there.exchange (some address) code now_ms disk

  -- `join_pairing`, where `attempt` is what connecting to an address comes to.
  unfoldable join_pairing :
      Node
      → (SocketAddr → Option (Result Listener))
      → List SocketAddr
      → PairingCode
      → Node × Result PeerStatus
  join_pairing n attempt addresses code = join_at n code (connect_any attempt addresses)

  abbrev with_code {ℓ} :
      {A : Type ℓ} → Node → Result PairingCode → (PairingCode → Node × Result A) → Node × Result A
  with_code n (err e) k = (n, err e)
  with_code n (ok code) k = k code

  -- `pair_with`.
  unfoldable pair_with :
      Node → (SocketAddr → Option (Result Listener)) → SocketAddr → Chars → Node × Result PeerStatus
  pair_with n attempt address code =
      with_code n (parse code) (λ c. join_pairing n attempt (address ∷ []) c)

  abbrev visible : Node → List SocketAddr → Node × Result PeerStatus → Node × Result PeerStatus
  visible n [] joined = (n, err other)
  visible n (a ∷ as') joined = joined

  abbrev found_addresses : List (ℕ × ℕ) → Option Discovery → DeviceId → List SocketAddr
  found_addresses local none device = []
  found_addresses local (some d) device = addresses_of local d.found device

  -- `pair_with_device`.
  unfoldable pair_with_device :
      Node
      → List (ℕ × ℕ)
      → Option Discovery
      → (SocketAddr → Option (Result Listener))
      → DeviceId
      → Chars
      → Node × Result PeerStatus
  pair_with_device n local discovery attempt device code =
      let addresses = found_addresses local discovery device in
      with_code n (parse code) (λ c. visible n addresses (join_pairing n attempt addresses c))

  -- `pair_over`.
  unfoldable pub pair_over : Node → DeviceId → Listener → Chars → Node × Result PeerStatus
  pair_over n device there code =
      with_code n (parse code) (λ c.
        join_pairing_over to_stdvec n there.id (some device) there.exchange none c now_ms disk)

-- `LanNode::connect_over`: the peer that a session is started with, if it is paired.
unfoldable session_over : Node → DeviceId → Option Peer
session_over n peer = Peers.get n.peers peer

-- `accept_over`, on the bytes that have come.
unfoldable pub accept_over : Node → DeviceId → List ℕ → Result Request
accept_over n from bytes = handle_incoming n.device_id bytes (tunnel from)

-- What `write_loop` waits for: the channel of the connection, which ends when nobody can send on it, or the
-- time for a ping.
pub data Writing : Type 0 where
  queued : Outgoing → Writing
  hung_up tick : Writing

-- `write_loop`, where each turn comes with whether sending succeeds: the messages that are sent.
unfoldable write_loop : List ℕ → List (Writing × Bool) → List (List ℕ)
write_loop ping [] = []
write_loop ping ((queued (message bytes), sent) ∷ rest) =
    let more = write_loop ping rest in if sent then bytes ∷ more else []
write_loop ping ((queued (last bytes), sent) ∷ rest) = if sent then bytes ∷ [] else []
write_loop ping ((queued close, sent) ∷ rest) = []
write_loop ping ((hung_up, sent) ∷ rest) = []
write_loop ping ((tick, sent) ∷ rest) =
    let more = write_loop ping rest in if sent then ping ∷ more else []
