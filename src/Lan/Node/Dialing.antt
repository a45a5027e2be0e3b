-- ===== src/Lan/Node/Dialing.antt =====
-- Dialing in crates/cled-lan/src/node.rs: who is due, the attempt, and the backoff after it.
use cled.Common.{
  Bool, List, Option, [], contains, false, if◌then◌else◌, is_some, leb, map, min, nat_eq, none, not,
  retain, some, true, ℕ, ◌&&◌, ◌*◌, ◌++◌, ◌+◌, ◌==◌, ◌||◌, ◌∷◌,
}
use cled.Common.Map
use cled.Sync.Item.{DeviceId}
use cled.Lan.Error.{LanError, Result, ok, err, unknown_peer, timeout}
use cled.Lan.Addr.{SocketAddr}
use cled.Lan.Peers.{Peer, PeerStore}
use cled.Lan.Peers
use cled.Lan.Node.{Node, Backoff, Instant, second, max_backoff, is_connected, should_dial}
use cled.Lan.Node.Group.{trigger_dial}

-- The start of `dial`: whether an attempt is made, which is then noted as under way.
unfoldable begin_dial : Node → DeviceId → Instant → Node × Bool
begin_dial n peer now =
    if is_connected n peer || not (should_dial n peer now) || contains n.dialing peer
    then (n, false)
    else (record n { dialing = peer ∷ n.dialing }, true)

-- The backoff after a failure: the next attempt comes after the delay, which is doubled up to a bound.
unfoldable pub back_off : Option Backoff → Instant → Backoff
back_off entry now =
    let delay : ℕ = elim entry [ none ↦ second | some b ↦ b.delay ] in
    record { next_attempt = now + delay; delay = min (delay * 2) max_backoff }

-- The end of `dial`, with the outcome of the attempt.
unfoldable pub end_dial : Node → DeviceId → Result (Unit {0}) → Instant → Node
end_dial n peer outcome now =
    let rested : Node = record n { dialing = retain (λ d. not (d == peer)) n.dialing } in
    elim outcome [
      | ok done ↦ record rested { backoff = Map.remove rested.backoff peer }
      | err e ↦ record rested {
        backoff = Map.insert rested.backoff peer (back_off (Map.get rested.backoff peer) now);
      }
    ]

-- The paired devices whose backoff is over, in the order of the store.
unfoldable pub due : Node → Instant → List DeviceId
due n now =
    retain (λ id. elim (Map.get n.backoff id) [ none ↦ true | some b ↦ leb b.next_attempt now ])
      (map (λ (p : Peer). p.device_id) n.peers.peers)

-- A tick of `dial_loop`: a task for each due device that is not connected.
unfoldable pub tick : Node → Instant → Node
tick n now = record n { spawned = n.spawned ++ retain (λ id. not (is_connected n id)) (due n now) }

unfoldable pub on_discovered : Node → DeviceId → Node
on_discovered n device =
    if is_some (Peers.get n.peers device) && not (is_connected n device)
    then trigger_dial n device
    else n

-- The loop of `connect_any`: the outcome of an attempt at an address is given, `none` where it times
-- out.
unfoldable pub connect_from {ℓ} :
    {A : Type ℓ}
    → (SocketAddr → Option (Result A))
    → List SocketAddr
    → LanError
    → Result (A × SocketAddr)
connect_from attempt [] last_error = err last_error
connect_from attempt (a ∷ rest) last_error = elim (attempt a) [
  | none ↦ connect_from attempt rest timeout
  | some outcome ↦ elim outcome [ ok stream ↦ ok (stream, a) | err e ↦ connect_from attempt rest e ]
]

unfoldable pub connect_any {ℓ} :
    {A : Type ℓ} → (SocketAddr → Option (Result A)) → List SocketAddr → Result (A × SocketAddr)
connect_any attempt addresses = connect_from attempt addresses unknown_peer
