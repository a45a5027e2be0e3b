-- ===== src/Desktop/Tunnel/Dialed.antt =====
-- Opening tunnels to paired devices, in apps/desktop/src-tauri/src/tunnel.rs.
use cled.Common.{
  &&-eq-true, Bool, Bool-cases, List, [], all, all-contains, arith, contains, false, find, inl, inr,
  is_some, map, nat_eq, not, refl, subst, sym, true, ◌==◌, ◌||◌, ◌∷◌, ◌≡◌,
}
use cled.Common.Map
use cled.Sync.Item.{DeviceId}
use cled.Sync.Item.Text.{UuidText}
use cled.Lan.Peers.{Peer, get, is_peer}
use cled.Lan.Node.{Node, Instant, PeerStatus, peer_statuses, should_connect}
use cled.Desktop.Tunnel.{Key, key_eq, Tunnels, has, create, open_tunnel, dial_all, dial}

has-create :
    (s : Tunnels) (key : Key) (p : DeviceId) → has (create s key) p ≡ (key.peer == p || has s p)
unfolding has create
has-create s key p = Map.any-remove (λ (k : Key). k.peer == p) s.table key

-- Whether `dial` passes over a peer.
abbrev skipped : Tunnels → Node → Instant → DeviceId → Bool
skipped s n now peer = has s peer || not (should_connect n peer now)

module _ (u : UuidText) where
  has-open :
      (s : Tunnels) (peer p : DeviceId) → has (open_tunnel u s peer).0 p ≡ (peer == p || has s p)
  unfolding open_tunnel has
  has-open s peer p = has-create _ _ p

  has-open_more :
      (s : Tunnels) (peer p : DeviceId) → has s p ≡ true → has (open_tunnel u s peer).0 p ≡ true
  has-open_more s peer p h = ground (arith, has-open s peer p)

  has-open_same : (s : Tunnels) (peer : DeviceId) → has (open_tunnel u s peer).0 peer ≡ true
  has-open_same s peer = ground (arith, has-open s peer peer)

  dial_all-keeps :
      (s : Tunnels) (n : Node) (now : Instant) (peers : List DeviceId) (p : DeviceId)
      → has s p ≡ true
      → has (dial_all u s n now peers).0 p ≡ true
  unfolding dial_all
  dial_all-keeps s n now [] p h = h
  dial_all-keeps s n now (q ∷ peers) p h = elim (Bool-cases (skipped s n now q)) [
    | inl skip ↦ rw (dial_all, skip) (dial_all-keeps s n now peers p h)
    | inr go ↦
        rw (dial_all, go)
          (dial_all-keeps (open_tunnel u s q).0 n now peers p (has-open_more s q p h))
  ]

  dial_all-skip :
      (s : Tunnels) (n : Node) (now : Instant) (q : DeviceId) (peers : List DeviceId)
      → skipped s n now q ≡ true
      → dial_all u s n now (q ∷ peers) ≡ dial_all u s n now peers
  unfolding dial_all
  dial_all-skip s n now q peers h = rw (dial_all, h) refl

  dial_all-open :
      (s : Tunnels) (n : Node) (now : Instant) (q : DeviceId) (peers : List DeviceId)
      → skipped s n now q ≡ false
      → (dial_all u s n now (q ∷ peers)).0 ≡ (dial_all u (open_tunnel u s q).0 n now peers).0
  unfolding dial_all
  dial_all-open s n now q peers h = rw (dial_all, h) refl

  dial_all_skips :
      (s : Tunnels) (n : Node) (now : Instant) (peers : List DeviceId)
      → all (skipped (dial_all u s n now peers).0 n now) peers ≡ true
  dial_all_skips s n now [] = refl
  dial_all_skips s n now (q ∷ peers) = elim (Bool-cases (skipped s n now q)) [
    | inl skip ↦
        subst (λ t. all (skipped t.0 n now) (q ∷ peers) ≡ true)
          (sym (dial_all-skip s n now q peers skip))
          (ground (arith, skip, dial_all-keeps s n now peers q, dial_all_skips s n now peers))
    | inr go ↦
        subst (λ t. all (skipped t n now) (q ∷ peers) ≡ true)
          (sym (dial_all-open s n now q peers go))
          (ground (
            arith,
            dial_all-keeps (open_tunnel u s q).0 n now peers q (has-open_same s q),
            dial_all_skips (open_tunnel u s q).0 n now peers,
          ))
  ]

  dial_all_idle :
      (s : Tunnels) (n : Node) (now : Instant) (peers : List DeviceId)
      → all (skipped s n now) peers ≡ true
      → dial_all u s n now peers ≡ (s, [], [])
  unfolding dial_all
  dial_all_idle s n now [] h = refl
  dial_all_idle s n now (q ∷ peers) h =
      let (first, rest) = &&-eq-true (skipped s n now q) _ h in
      rw (dial_all, first) (dial_all_idle s n now peers rest)

abbrev peer_ids : Node → List DeviceId
peer_ids n = map (λ (p : PeerStatus). p.device_id) (peer_statuses n)

peer_ids-find :
    (online : DeviceId → Bool) (ps : List Peer) (id : DeviceId)
    → is_some (find (is_peer id) ps) ≡ true
    → contains
        (map
          (λ (p : PeerStatus). p.device_id)
          (map
            (λ (p : Peer). record {
              device_id = p.device_id;
              name = p.name;
              online = online p.device_id;
            })
            ps))
        id
      ≡ true
peer_ids-find online [] id h = absurd (ground arith)
peer_ids-find online (p ∷ ps) id h = ground (arith, peer_ids-find online ps id)

peer_ids-should_connect :
    (n : Node) (id : DeviceId) (now : Instant)
    → should_connect n id now ≡ true
    → contains (peer_ids n) id ≡ true
unfolding should_connect peer_statuses get
peer_ids-should_connect n id now h =
    peer_ids-find (Map.contains_key n.conns) n.peers.peers id (ground arith)

-- After `dial` there is a tunnel to each device that the node should connect to, and dialing again at
-- once opens no tunnel and sends nothing.
pub dial_covers :
    (u : UuidText) (s : Tunnels) (n : Node) (now : Instant) (p : DeviceId)
    → should_connect n p now ≡ true
    → (has (dial u s n now).0 p ≡ true)
      × (dial u (dial u s n now).0 n now ≡ ((dial u s n now).0, [], []))
unfolding dial
dial_covers u s n now p h = (
  ground (
    arith,
    h,
    all-contains (skipped (dial_all u s n now (peer_ids n)).0 n now) (peer_ids n) p
        (dial_all_skips u s n now (peer_ids n)) (peer_ids-should_connect n p now h),
  ),
  dial_all_idle u (dial_all u s n now (peer_ids n)).0 n now (peer_ids n)
      (dial_all_skips u s n now (peer_ids n)),
)
