-- ===== src/Lan/Merge/Steps.antt =====
-- What one entry of a roster does to the standing of a device.
use cled.Common.{
  Option-cases, [], any, arith, false, if◌then◌else◌, inl, inr, leb, length, length-retain-le,
  nat_eq, none, not, remove_first, some, ℕ, ◌+◌, ◌<◌, ◌==◌, ◌∷◌, ◌≡◌, ◌≤◌,
}
use cled.Common.Keyed.{
  lookup-retain, lookup-append, lookup-update_first, any-lookup, lookup_cong, lookup, lookup-key,
  lookup-remove_first,
}
use cled.Sync.Item.{DeviceId}
use cled.Lan.Peers.{
  Peer, get, remember_removal, PeerStore, Removed, expel, max_removed, removal, is_peer, is_removed,
}
use cled.Lan.Peers.Valid.{IsValid, peer_key, removed_key, kept, length-kept-le, lookup-kept}
use cled.Lan.Merge.{Progress, refresh, member_step, removal_step, removed_since}
use cled.Lan.Merge.Standing.{member, standing, join, leave}

refresh-key : (peer known : Peer) → peer_key (refresh peer known) ≡ peer_key known
unfolding refresh
refresh-key peer known = ground arith

refresh-standing :
    (peer known : Peer)
    → member (refresh peer known).paired_at_ms (refresh peer known).public_key
      ≡ join (member known.paired_at_ms known.public_key) peer.paired_at_ms peer.public_key
unfolding refresh
refresh-standing peer known = ground arith

-- The test by which `merge` passes over an entry, by the removal of its device.
pub removed_since-lookup :
    (s : PeerStore) (peer : Peer)
    → IsValid s
    → any (removed_since peer) s.removed ≡ elim (lookup removed_key s.removed peer.device_id) [
      | none ↦ false
      | some r ↦ leb peer.paired_at_ms r.removed_at_ms
    ]
removed_since-lookup s peer v =
    any-lookup removed_key (λ r. leb peer.paired_at_ms r.removed_at_ms) s.removed peer.device_id
      v.removed

pub member_step-standing :
    (m : Progress) (peer : Peer) (id : DeviceId)
    → IsValid m.store
    → standing (member_step m peer).store id ≡ (
        if peer.device_id == id
        then join (standing m.store id) peer.paired_at_ms peer.public_key
        else standing m.store id)
unfolding member_step get
member_step-standing m peer id v = elim (Option-cases (get m.store peer.device_id)) [
  | inl e ↦ ground (
    arith,
    e,
    removed_since-lookup m.store peer v,
    lookup-append peer_key m.store.peers (peer ∷ []) id,
    lookup-retain removed_key m.store.removed peer.device_id id,
    lookup_cong peer_key m.store.peers peer.device_id id,
    lookup_cong removed_key m.store.removed peer.device_id id,
  )
  | inr (known, e) ↦ ground (
    arith,
    e,
    v.apart peer.device_id,
    removed_since-lookup m.store peer v,
    lookup-update_first peer_key (refresh peer) (refresh-key peer) m.store.peers peer.device_id id,
    refresh-standing peer known,
    lookup_cong peer_key m.store.peers peer.device_id id,
  )
]

fits :
    (s : PeerStore) (r : Removed)
    → length s.removed < max_removed
    → length (kept r s.removed) ≤ max_removed
fits s r room = omega (arith, length-kept-le r s.removed)

remember_removal_room :
    (s : PeerStore) (r : Removed)
    → length (kept r s.removed) ≤ max_removed
    → remember_removal s r ≡ record s { removed = kept r s.removed }
unfolding remember_removal
remember_removal_room s r room = ground arith

expel_room :
    (s : PeerStore) (known : Peer) (at : ℕ)
    → length s.removed < max_removed
    → expel s known at ≡ record s {
      peers = remove_first (is_peer known.device_id) s.peers;
      removed = kept (removal known at) s.removed;
    }
unfolding expel
expel_room s known at room =
    remember_removal_room _ (removal known at) (fits s (removal known at) room)

pub removal_step-standing :
    (m : Progress) (peer : Peer) (at : ℕ) (id : DeviceId)
    → IsValid m.store
    → length m.store.removed < max_removed
    → standing (removal_step m peer at).store id
      ≡ (if peer.device_id == id then leave (standing m.store id) at else standing m.store id)
unfolding removal_step get
removal_step-standing m peer at id v room = elim (Option-cases (get m.store peer.device_id)) [
  | inl e ↦ ground (
    arith,
    e,
    remember_removal_room m.store (removal peer at) (fits m.store (removal peer at) room),
    any-lookup removed_key (λ r. leb at r.removed_at_ms) m.store.removed peer.device_id v.removed,
    lookup-kept (removal peer at) m.store.removed id,
    lookup_cong peer_key m.store.peers peer.device_id id,
    lookup_cong removed_key m.store.removed peer.device_id id,
  )
  | inr (known, e) ↦
      let same : known.device_id ≡ peer.device_id =
        lookup-key peer_key m.store.peers peer.device_id known e in
      ground (
        arith,
        e,
        same,
        v.apart peer.device_id,
        expel_room m.store known at room,
        lookup-remove_first peer_key m.store.peers known.device_id id v.peers,
        lookup-kept (removal known at) m.store.removed id,
        lookup_cong peer_key m.store.peers peer.device_id id,
        lookup_cong removed_key m.store.removed peer.device_id id,
      )
]

pub removal_step-length :
    (m : Progress) (p : Peer) (at : ℕ)
    → length m.store.removed < max_removed
    → length (removal_step m p at).store.removed ≤ length m.store.removed + 1
unfolding removal_step
removal_step-length m p at room = elim (Option-cases (get m.store p.device_id)) [
  | inl e ↦ ground (
    arith,
    e,
    remember_removal_room m.store (removal p at) (fits m.store (removal p at) room),
    length-kept-le (removal p at) m.store.removed,
  )
  | inr (known, e) ↦ ground (
    arith,
    e,
    expel_room m.store known at room,
    length-kept-le (removal known at) m.store.removed,
  )
]

pub member_step-length :
    (m : Progress) (p : Peer) → length (member_step m p).store.removed ≤ length m.store.removed
unfolding member_step
member_step-length m p =
    ground (arith, length-retain-le (λ r. not (is_removed p.device_id r)) m.store.removed)
