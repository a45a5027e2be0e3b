-- ===== src/Lan/Node/Session.antt =====
-- Sessions in crates/cled-lan/src/node.rs: from the handshake to the messages. What a handshake comes
-- to, and what is received, are arguments.
use cled.Common.{
  Bool, List, Option, [], false, if◌then◌else◌, ltb, nat_eq, none, not, some, true, ℕ, ◌+◌, ◌-◌,
  ◌==◌, ◌∷◌,
}
use cled.Sync.Item.{DeviceId, ClipboardItem}
use cled.Lan.Addr.{SocketAddr, with_port}
use cled.Lan.Error.{Result, ok, err, unknown_peer, malformed, incompatible_version, ◌>>=◌}
use cled.Lan.Wire.{
  Message, Hello, hello, item, ping, bye, unpaired, roster, WireItem, protocol_version, decode,
  encode,
}
use cled.Lan.Peers.{Peer, PeerStore}
use cled.Lan.Peers
use cled.Lan.Node.{
  Node, Instant, emit, peers_changed, clock_skew, item_received, clock_skew_warning_ms, register,
  unregister,
}
use cled.Lan.Node.Group.{send_roster_to, leave_group, apply_roster}

-- What `exchange_hellos` makes of the other side's message.
unfoldable check_hello : DeviceId → Result Message → Result Hello
check_hello expected (err e) = err malformed
check_hello expected (ok (hello h)) =
    if not (h.protocol == protocol_version)
    then err (incompatible_version h.protocol)
    else if not (h.device_id == expected)
    then err unknown_peer
    else ok h
check_hello expected (ok (item w)) = err malformed
check_hello expected (ok ping) = err malformed
check_hello expected (ok (bye r)) = err malformed
check_hello expected (ok (roster r)) = err malformed

-- `exchange_hellos`: the encoding of the own hello, then how sending went, then what was received.
unfoldable exchange_hellos :
    (List ℕ → Result Message)
    → DeviceId
    → Result (List ℕ)
    → Result (Unit {0})
    → Result (List ℕ)
    → Result Hello
exchange_hellos from_bytes expected mine sent received = mine >>= λ bytes.
    sent >>= λ done. received >>= λ theirs. check_hello expected (decode from_bytes theirs)

-- `u64::abs_diff`.
abbrev abs_diff : ℕ → ℕ → ℕ
abs_diff a b = (a - b) + (b - a)

-- Who `accept_session` answers: a paired device, or a removed one that is to be told.
unfoldable find_initiator : Node → DeviceId → Result (Peer × Bool)
find_initiator n initiator = elim (Peers.get n.peers initiator) [
  | some peer ↦ ok (peer, false)
  | none ↦ elim (Peers.get_removed n.peers initiator) [
    | some removed ↦ ok (removed, true)
    | none ↦ err unknown_peer
  ]
]

module _ (to_stdvec : Message → Result (List ℕ)) where
  -- `start_session` up to the spawned task: whether the connection is kept.
  unfoldable pub start_session :
      Node → DeviceId → DeviceId → Hello → Option SocketAddr → ℕ → Bool → Node × Bool
  start_session n peer initiator h address now_ms disk =
      let skew_ms = abs_diff now_ms h.time_ms in
      let warned : Node =
        if ltb clock_skew_warning_ms skew_ms then emit n (clock_skew peer skew_ms) else n in
      let seen : Node = record warned {
        peers = (Peers.seen warned.peers peer h.name address disk).0;
        next_conn_id = warned.next_conn_id + 1;
      } in
      let (registered, kept) =
        register seen peer (record { id = warned.next_conn_id; initiator = initiator }) in
      if kept
      then (emit (send_roster_to to_stdvec registered peer) peers_changed, true)
      else (registered, false)

  -- What a session with `peer` does with a message: the node, and whether the session goes on. An item
  -- is decoded by `into_item`.
  unfoldable pub receive :
      (WireItem → Result ClipboardItem) → Node → DeviceId → Result Message → Bool → Node × Bool
  receive into_item n peer (err e) disk = (n, true)
  receive into_item n peer (ok (item w)) disk =
      (elim (into_item w) [ err e ↦ n | ok i ↦ emit n (item_received i peer) ], true)
  receive into_item n peer (ok (bye unpaired)) disk = (leave_group n peer disk, false)
  receive into_item n peer (ok (roster r)) disk = (apply_roster to_stdvec n peer r disk, true)
  receive into_item n peer (ok ping) disk = (n, true)
  receive into_item n peer (ok (hello h)) disk = (n, true)

  -- `read_loop` on what is received, each with whether a save reaches the disk. It ends with the
  -- connection, after the last message of the list, or with a goodbye.
  unfoldable read_loop :
      (WireItem → Result ClipboardItem) → Node → DeviceId → List (Result Message × Bool) → Node
  read_loop into_item n peer [] = n
  read_loop into_item n peer ((m, disk) ∷ ms) =
      let (n', on) = receive into_item n peer m disk in
      elim on [ true ↦ read_loop into_item n' peer ms | false ↦ n' ]

  -- The task of a session: the messages, and then the connection is taken out.
  unfoldable run_session :
      (WireItem → Result ClipboardItem)
      → Node
      → DeviceId
      → ℕ
      → List (Result Message × Bool)
      → Instant
      → Node
  run_session into_item n peer conn_id ms ended =
      emit (unregister (read_loop into_item n peer ms) peer conn_id ended) peers_changed

  -- `accept_session` after the handshake with the key of `find_initiator`: `met` is the hello that was
  -- exchanged, and `told` how sending the goodbye went.
  unfoldable accept_session :
      Node
      → Option SocketAddr
      → DeviceId
      → (Peer → Result Hello)
      → Result (Unit {0})
      → ℕ
      → Bool
      → Node × Result (Unit {0})
  accept_session n peer_addr initiator met told now_ms disk = elim (find_initiator n initiator) [
    | err e ↦ (n, err e)
    | ok (peer, was_removed) ↦ elim (met peer) [
      | err e ↦ (n, err e)
      | ok h ↦
          if was_removed
          then elim (encode to_stdvec (bye unpaired) >>= λ bytes. told) [
            | err e ↦ (n, err e)
            | ok done ↦
                let (peers, saved) = Peers.mark_notified n.peers initiator disk in
                (record n { peers = peers }, saved)
          ]
          else (
            (start_session n initiator initiator h
                (elim peer_addr [ none ↦ none | some a ↦ some (with_port a h.listen_port) ]) now_ms
                disk).0,
            ok tt,
          )
    ]
  ]

  -- `connect_over` after its handshake: this device started the connection.
  unfoldable pub connect_over :
      Node → Peer → Option SocketAddr → Result Hello → ℕ → Bool → Node × Result (Unit {0})
  connect_over n peer address (err e) now_ms disk = (n, err e)
  connect_over n peer address (ok h) now_ms disk = (
    (start_session n peer.device_id n.device_id h
        (elim address [ none ↦ none | some a ↦ some (with_port a h.listen_port) ]) now_ms disk).0,
    ok tt,
  )
