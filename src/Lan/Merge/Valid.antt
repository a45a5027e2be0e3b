-- ===== src/Lan/Merge/Valid.antt =====
-- The invariant of the store under `merge`, and under any sequence of calls.
use cled.Common.{
  Bool, Bool-cases, List, Option, Option-cases, [], any, arith, inl, inr, leb, length-retain-le,
  nat_eq, none, not, retain, ℕ, ◌&&◌, ◌++◌, ◌||◌, ◌∷◌, ◌≡◌,
}
use cled.Common.Keyed.{lookup, lookup-retain, lookup-append, Unique-append, Unique-retain}
use cled.Clipboard.Content.{Chars}
use cled.Sync.Item.{DeviceId}
use cled.Lan.Addr.{SocketAddr}
use cled.Lan.Wire.{RosterPeer, RosterRemoval, Roster}
use cled.Lan.Peers.{
  Peer, PeerStore, is_peer, is_removed, get, removal, upsert, seen, remove, clear, mark_notified,
  is_empty,
}
use cled.Lan.Peers.Valid.{
  IsValid, peer_key, removed_key, save_then-IsValid, update-IsValid, remember_removal-IsValid,
  expel-IsValid, upsert-IsValid, remove-IsValid, clear-IsValid,
}
use cled.Lan.Peers.Updates.{seen-IsValid, mark_notified-IsValid}
use cled.Lan.Merge.{
  Progress, candidate, removed_since, refresh, member_step, removal_step, merge_members,
  merge_removals, merged, merge, change_of,
}

refresh-key : (peer known : Peer) → peer_key (refresh peer known) ≡ peer_key known
unfolding refresh
refresh-key peer known = ground arith

added-IsValid :
    (s : PeerStore) (peer : Peer)
    → lookup peer_key s.peers peer.device_id ≡ none
    → IsValid s
    → IsValid (record s {
      peers = s.peers ++ peer ∷ [];
      removed = retain (λ r. not (is_removed peer.device_id r)) s.removed;
    })
added-IsValid s peer absent v = record {
  peers = Unique-append peer_key s.peers peer v.peers absent;
  removed = Unique-retain removed_key _ s.removed v.removed;
  apart = λ id. ground (
    arith,
    v.apart id,
    lookup-append peer_key s.peers (peer ∷ []) id,
    lookup-retain removed_key s.removed peer.device_id id,
  );
  bounded =
      omega (arith, v.bounded, length-retain-le (λ r. not (is_removed peer.device_id r)) s.removed);
}

pub member_step-IsValid :
    (m : Progress) (peer : Peer) → IsValid m.store → IsValid (member_step m peer).store
unfolding member_step
member_step-IsValid m peer v = elim (Bool-cases (any (removed_since peer) m.store.removed)) [
  | inl old ↦ rw (old, member_step) v
  | inr fresh ↦ elim (Option-cases (get m.store peer.device_id)) [
    | inl e ↦ rw (fresh, e, member_step) (added-IsValid m.store peer (unfold get in e) v)
    | inr (known, e) ↦
        rw (fresh, e, member_step)
          (update-IsValid m.store (is_peer peer.device_id) (refresh peer) (refresh-key peer) v)
  ]
]

pub removal_step-IsValid :
    (m : Progress) (peer : Peer) (at : ℕ) → IsValid m.store → IsValid (removal_step m peer at).store
unfolding removal_step
removal_step-IsValid m peer at v = elim (Option-cases (get m.store peer.device_id)) [
  | inr (known, e) ↦ elim (Bool-cases (leb known.paired_at_ms at)) [
    | inl due ↦ rw (e, due, removal_step) (expel-IsValid m.store known at v)
    | inr late ↦ rw (e, late, removal_step) v
  ]
  | inl e ↦
      elim (Bool-cases
        (any (λ r. is_removed peer.device_id r && leb at r.removed_at_ms) m.store.removed)) [
          | inl known ↦ rw (e, known, removal_step) v
          | inr new ↦
              rw (e, new, removal_step)
                (remember_removal-IsValid m.store (removal peer at) (unfold get in e) v)
        ]
]

module _ (me sender : DeviceId) where
  pub merge_members-IsValid :
      (rs : List RosterPeer) (m : Progress)
      → IsValid m.store
      → IsValid (merge_members me sender m rs).store
  unfolding merge_members
  merge_members-IsValid [] m v = v
  merge_members-IsValid (r ∷ rs) m v = elim (Option-cases (candidate me sender r)) [
    | inl e ↦ rw (e, merge_members) (merge_members-IsValid rs m v)
    | inr (p, e) ↦
        rw (e, merge_members)
          (merge_members-IsValid rs (member_step m p) (member_step-IsValid m p v))
  ]

  merge_removals-IsValid :
      (rs : List RosterRemoval) (m : Progress)
      → IsValid m.store
      → IsValid (merge_removals me sender m rs).store
  unfolding merge_removals
  merge_removals-IsValid [] m v = v
  merge_removals-IsValid (r ∷ rs) m v = elim (Option-cases (candidate me sender r.peer)) [
    | inl e ↦ rw (e, merge_removals) (merge_removals-IsValid rs m v)
    | inr (p, e) ↦
        rw (e, merge_removals)
          (merge_removals-IsValid rs (removal_step m p r.removed_at_ms)
            (removal_step-IsValid m p r.removed_at_ms v))
  ]

  pub merge-IsValid :
      (s : PeerStore) (roster : Roster) (disk : Bool)
      → IsValid s
      → IsValid (merge me sender s roster disk).0
  unfolding merge
  merge-IsValid s roster disk v =
      let m = merged me sender s roster in
      let w : IsValid m.store =
        unfold merged in merge_removals-IsValid _ _ (merge_members-IsValid _ _ v) in
      elim (Bool-cases (m.dirty || not (is_empty (change_of me sender m)))) [
        | inl news ↦ rw (news, merge) (save_then-IsValid m.store disk _ w)
        | inr quiet ↦ rw (quiet, merge) w
      ]

-- A call that changes the store.
pub data Call : Type 0 where
  upserts : Peer → Call
  seens : DeviceId → Chars → Option SocketAddr → Call
  removes : DeviceId → ℕ → Call
  clears : Call
  notifies : DeviceId → Call
  merges : DeviceId → DeviceId → Roster → Call

unfoldable pub apply : PeerStore → Call × Bool → PeerStore
apply s (upserts peer, disk) = (upsert s peer disk).0
apply s (seens id name address, disk) = (seen s id name address disk).0
apply s (removes id at, disk) = (remove s id at disk).0
apply s (clears, disk) = (clear s disk).0
apply s (notifies id, disk) = (mark_notified s id disk).0
apply s (merges me sender roster, disk) = (merge me sender s roster disk).0

-- Every call keeps the store valid, whether its save reaches the disk or not: no device stands twice
-- among the paired and the removed ones, and no more than 100 removals are remembered.
pub apply-IsValid : (s : PeerStore) (c : Call × Bool) → IsValid s → IsValid (apply s c)
unfolding apply
apply-IsValid s (upserts peer, disk) v = upsert-IsValid s peer disk v
apply-IsValid s (seens id name address, disk) v = seen-IsValid s id name address disk v
apply-IsValid s (removes id at, disk) v = remove-IsValid s id at disk v
apply-IsValid s (clears, disk) v = clear-IsValid s disk v
apply-IsValid s (notifies id, disk) v = mark_notified-IsValid s id disk v
apply-IsValid s (merges me sender roster, disk) v = merge-IsValid me sender s roster disk v
