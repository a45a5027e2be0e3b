-- ===== src/Lan/Node/Pairing.antt =====
-- Pairing in crates/cled-lan/src/node.rs, on the side that shows the code and on the one that types
-- it. What an exchange comes to is an argument: a function of the code that it is run with.
use cled.Common.{
  Bool, List, Option, [], false, if◌then◌else◌, leb, ltb, nat_eq, none, not, some, ℕ, ◌++◌, ◌+◌,
  ◌==◌, ◌∷◌,
}
use cled.Sync.Item.{DeviceId}
use cled.Lan.Addr.{SocketAddr, with_port}
use cled.Lan.Code.{PairingCode}
use cled.Lan.Error.{LanError, Result, ok, err, not_pairing, code_expired, unknown_peer}
use cled.Lan.Wire.{Message, Hello}
use cled.Lan.Peers.{Peer, PeerStore}
use cled.Lan.Peers
use cled.Lan.Node.{
  Event, Node, PairingSession, PeerStatus, Instant, emit, paired, peers_changed,
  pairing_code_changed, code_lifetime, max_pairing_failures,
}
use cled.Lan.Node.Group.{send_roster_to_all, trigger_dial}

-- `Discovery::set_pairing`, where discovery runs.
abbrev announce : Node → Option (List ℕ) → Node
announce n shown = if n.has_discovery then record n { announced = shown } else n

-- `start_pairing`, for the code that is generated, or why it is not.
unfoldable start_pairing : Node → Instant → Result PairingCode → Node × Result PairingCode
start_pairing n now (err e) = (n, err e)
start_pairing n now (ok code) = (
  announce
      (record n {
        pairing = some (record { code = code; expires_at = now + code_lifetime; failures = 0 });
      })
      (some n.name),
  ok code,
)

unfoldable pub end_pairing : Node → Node
end_pairing n = announce (record n { pairing = none }) none

-- `store_peer`.
unfoldable pub store_peer :
    Node → DeviceId → Hello → ℕ → Option SocketAddr → ℕ → Bool → Node × Result (Unit {0})
store_peer n id hello public_key address now_ms disk =
    let (peers, saved) =
      Peers.upsert n.peers
        (record {
          device_id = id;
          name = hello.name;
          public_key = public_key;
          paired_at_ms = now_ms;
          last_address = elim address [
            | none ↦ none
            | some a ↦ some (with_port a hello.listen_port)
          ];
        })
        disk in
    (record n { peers = peers }, saved)

-- A failed attempt: the third burns the code, and a new one is shown if it can be made.
unfoldable pub count_failure : Node → PairingSession → Instant → Result PairingCode → Node
count_failure n active now fresh =
    let counted : Node = record n {
      pairing = some (record active { failures = active.failures + 1 });
    } in
    if leb max_pairing_failures (active.failures + 1)
    then elim fresh [
      | err e ↦ counted
      | ok code ↦
          emit
            (record n {
              pairing =
                  some (record { code = code; expires_at = now + code_lifetime; failures = 0 });
            })
            (pairing_code_changed (some code))
    ]
    else counted

-- What the failed attempt reports: why it failed, or why no new code could be made.
unfoldable pub failure {ℓ} :
    {A : Type ℓ} → PairingSession → LanError → Result PairingCode → Result A
failure active e fresh =
    if leb max_pairing_failures (active.failures + 1)
    then elim fresh [ err e' ↦ err e' | ok code ↦ err e ]
    else err e

module _ (to_stdvec : Message → Result (List ℕ)) where
  -- The end of a pairing that succeeded, on both sides.
  unfoldable pub welcome : Node → DeviceId → List Event → Node
  welcome n id news =
      trigger_dial
        (record (send_roster_to_all to_stdvec n) {
          events = (send_roster_to_all to_stdvec n).events ++ news;
        })
        id

  -- The end of an attempt that succeeded, once the device is stored or is not.
  unfoldable pub greet : DeviceId → Hello → Node × Result (Unit {0}) → Node × Result (Unit {0})
  greet joiner hello (n, err e) = (n, err e)
  greet joiner hello (n, ok done) =
      (welcome n joiner (paired joiner hello.name ∷ peers_changed ∷ []), ok tt)

  -- The `match` on what the exchange came to.
  unfoldable pub conclude :
      Node
      → PairingSession
      → Instant
      → Result PairingCode
      → Option SocketAddr
      → DeviceId
      → ℕ
      → Bool
      → Result (Hello × ℕ)
      → Node × Result (Unit {0})
  conclude n active now fresh peer_addr joiner now_ms disk (err e) =
      (count_failure n active now fresh, failure active e fresh)
  conclude n active now fresh peer_addr joiner now_ms disk (ok (hello, key)) =
      greet joiner hello (store_peer (end_pairing n) joiner hello key peer_addr now_ms disk)

  -- `accept_pairing` from the session that it finds.
  unfoldable pub answer :
      Node
      → Instant
      → Instant
      → (PairingCode → Result (Hello × ℕ))
      → Result PairingCode
      → Option SocketAddr
      → DeviceId
      → ℕ
      → Bool
      → Option PairingSession
      → Node × Result (Unit {0})
  answer n now ended exchange fresh peer_addr joiner now_ms disk none = (n, err not_pairing)
  answer n now ended exchange fresh peer_addr joiner now_ms disk (some active) =
      if ltb active.expires_at now
      then (emit (end_pairing n) (pairing_code_changed none), err code_expired)
      else conclude n active ended fresh peer_addr joiner now_ms disk (exchange active.code)

  -- `accept_pairing` of an attempt of the device `joiner` that begins at the instant `now`
  -- and whose exchange ends at `ended`. `fresh` is the new code if one has to be made.
  unfoldable pub accept_pairing :
      Node
      → Instant
      → Instant
      → (PairingCode → Result (Hello × ℕ))
      → Result PairingCode
      → Option SocketAddr
      → DeviceId
      → ℕ
      → Bool
      → Node × Result (Unit {0})
  accept_pairing n now ended exchange fresh peer_addr joiner now_ms disk =
      answer n now ended exchange fresh peer_addr joiner now_ms disk n.pairing

  -- `join_pairing_over`: `listener` is the id that the other side sends, if it sends one, and
  -- `expected` the device that a tunnel leads to.
  unfoldable pub join_pairing_over :
      Node
      → Option DeviceId
      → Option DeviceId
      → (DeviceId → PairingCode → Result (Hello × ℕ))
      → Option SocketAddr
      → PairingCode
      → ℕ
      → Bool
      → Node × Result PeerStatus
  join_pairing_over n none expected exchange address code now_ms disk = (n, err not_pairing)
  join_pairing_over n (some listener) expected exchange address code now_ms disk =
      if elim expected [ none ↦ false | some device ↦ not (device == listener) ]
      then (n, err unknown_peer)
      else elim (exchange listener code) [
        | err e ↦ (n, err e)
        | ok (hello, key) ↦
            let (stored, saved) = store_peer n listener hello key address now_ms disk in
            elim saved [
              | err e ↦ (stored, err e)
              | ok done ↦ (
                welcome stored listener (peers_changed ∷ []),
                ok (record { device_id = listener; name = hello.name; online = false }),
              )
            ]
      ]
