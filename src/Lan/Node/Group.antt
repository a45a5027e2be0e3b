-- ===== src/Lan/Node/Group.antt =====
-- The group of crates/cled-lan/src/node.rs: rosters, removals, and being removed. Encoding a message
-- is a parameter.
use cled.Common.{Bool, List, Option, [], if◌then◌else◌, map, nat_eq, none, some, ℕ, ◌++◌, ◌∷◌}
use cled.Common.Map
use cled.Sync.Item.{DeviceId}
use cled.Lan.Error.{Result, ok, err}
use cled.Lan.Wire.{Message, roster, bye, unpaired, encode, Roster}
use cled.Lan.Peers.{Peer, PeerStore, is_empty, RosterChange}
use cled.Lan.Peers
use cled.Lan.Merge.{merge}
use cled.Lan.Node.{
  Outgoing, Node, Conn, peers_changed, removed_by, emit, send, message, last, close, send_to_all,
}

-- The backoff is forgotten and a task that dials is spawned.
unfoldable pub trigger_dial : Node → DeviceId → Node
trigger_dial n peer = record n {
  backoff = Map.remove n.backoff peer;
  spawned = n.spawned ++ peer ∷ [];
}

-- The session with an old key ends.
abbrev pub hang_up : Node → DeviceId → Option Conn → Node
hang_up n id none = n
hang_up n id (some conn) = send (record n { conns = Map.remove n.conns id }) conn close

-- A new key: the session with the old one must not continue, and the device is dialed again.
unfoldable pub redial : Node → DeviceId → Node
redial n id = trigger_dial (hang_up n id (Map.get n.conns id)) id

unfoldable pub redial_all : Node → List DeviceId → Node
redial_all n [] = n
redial_all n (id ∷ ids) = redial_all (redial n id) ids

abbrev close_all : List (DeviceId × Conn) → List (ℕ × Outgoing)
close_all conns = map (λ c. (c.1.id, close)) conns

-- `leave_group`, with whether the save reaches the disk.
unfoldable pub leave_group : Node → DeviceId → Bool → Node
leave_group n by disk = elim (Peers.get n.peers by) [
  | none ↦ n
  | some p ↦
      emit
        (record n {
          peers = (Peers.clear n.peers disk).0;
          conns = [];
          sent = n.sent ++ close_all n.conns;
          backoff = [];
        })
        (removed_by by p.name)
]

abbrev pub send_some : Node → Option (List ℕ) → Node
send_some n none = n
send_some n (some bytes) = send_to_all n bytes

-- The last message on the connection of a removed device, if it is connected.
abbrev pub tell : Node → Option Conn → Result (List ℕ) → Node
tell n none notice = n
tell n (some conn) (err e) = n
tell n (some conn) (ok bytes) = send n conn (last bytes)

module _ (to_stdvec : Message → Result (List ℕ)) where
  -- `roster_message`: nothing when the list cannot be encoded.
  unfoldable pub roster_message : Node → Option (List ℕ)
  roster_message n = elim (encode to_stdvec (roster (Peers.roster n.peers))) [
    | err e ↦ none
    | ok bytes ↦ some bytes
  ]

  unfoldable pub send_roster_to_all : Node → Node
  send_roster_to_all n = send_some n (roster_message n)

  unfoldable pub send_roster_to : Node → DeviceId → Node
  send_roster_to n peer = elim (roster_message n) [
    | none ↦ n
    | some bytes ↦ elim (Map.get n.conns peer) [
      | none ↦ n
      | some conn ↦ send n conn (message bytes)
    ]
  ]

  -- The connection is gone whether or not the notice can be encoded.
  unfoldable pub disconnect_removed : Node → DeviceId → Node
  disconnect_removed n id =
      let told = tell n (Map.get n.conns id) (encode to_stdvec (bye unpaired)) in
      record told { conns = Map.remove told.conns id; backoff = Map.remove told.backoff id }

  unfoldable pub disconnect_all : Node → List DeviceId → Node
  disconnect_all n [] = n
  disconnect_all n (id ∷ ids) = disconnect_all (disconnect_removed n id) ids

  -- `remove_peer`, at a time of the clock, with whether the save reaches the disk.
  unfoldable pub remove_peer : Node → DeviceId → ℕ → Bool → Node × Result (Unit {0})
  remove_peer n id now_ms disk =
      let gone = disconnect_removed n id in
      let (peers, removed) = Peers.remove gone.peers id now_ms disk in
      let n' : Node = record gone { peers = peers } in
      elim removed [
        | err e ↦ (n', err e)
        | ok p ↦ (emit (send_roster_to_all n') peers_changed, ok tt)
      ]

  -- `apply_roster` once the merge is saved.
  unfoldable pub follow : Node → RosterChange → Node
  follow n change =
      if is_empty change
      then n
      else emit (send_roster_to_all (redial_all (disconnect_all n change.removed) change.added))
          peers_changed

  unfoldable pub apply_roster : Node → DeviceId → Roster → Bool → Node
  apply_roster n from news disk =
      let (peers, merged) = merge n.device_id from n.peers news disk in
      let n' : Node = record n { peers = peers } in
      elim merged [ err e ↦ n' | ok change ↦ follow n' change ]
