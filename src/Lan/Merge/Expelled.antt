-- ===== src/Lan/Merge/Expelled.antt =====
-- What `merge` of crates/cled-lan/src/peers.rs reports as removed: whoever was paired still is, or is
-- reported.
use cled.Common.{
  Bool, Bool-cases, List, Option-cases, [], any, ap, arith, contains, contains-snoc, false, find,
  inl, inr, is_some, leb, nat_eq, refl, remove_first, take, true, ℕ, ◌&&◌, ◌==◌, ◌||◌, ◌∙◌, ◌∷◌,
  ◌≡◌,
}
use cled.Common.Keyed.{lookup-append, is_some-update_first, lookup-key}
use cled.Sync.Item.{DeviceId}
use cled.Lan.Wire.{RosterPeer, RosterRemoval, Roster}
use cled.Lan.Peers.{
  Peer, PeerStore, get, expel, remember_removal, is_removed, is_peer, max_roster_entries,
}
use cled.Lan.Merge.{
  Progress, member_step, removal_step, removed_since, refresh, candidate, merge_members,
  merge_removals, merged,
}

abbrev pub accounted : DeviceId → Progress → Bool
accounted id m = is_some (get m.store id) || contains m.removed id

refresh-device_id : (peer known : Peer) → (refresh peer known).device_id ≡ known.device_id
unfolding refresh
refresh-device_id peer known = ground arith

pub remove_first-other :
    (ps : List Peer) (k id : DeviceId)
    → (k == id) ≡ false
    → find (is_peer id) (remove_first (is_peer k) ps) ≡ find (is_peer id) ps
remove_first-other [] k id h = refl
remove_first-other (p ∷ ps) k id h = ground (arith, remove_first-other ps k id h)

expelled :
    (ps : List Peer) (k j id : DeviceId) (c : Bool)
    → k ≡ j
    → (is_some (find (is_peer id) ps) || c) ≡ true
    → (is_some (find (is_peer id) (remove_first (is_peer k) ps)) || (c || j == id)) ≡ true
expelled ps k j id c same h = elim (Bool-cases (j == id)) [
  | inl it ↦ rw it (ground arith)
  | inr other ↦
      rw (other, remove_first-other ps k id (ap (λ i. i == id) same ∙ other)) (ground (arith, h))
]

member_step-accounted :
    (m : Progress) (peer : Peer) (id : DeviceId)
    → accounted id m ≡ true
    → accounted id (member_step m peer) ≡ true
unfolding member_step get
member_step-accounted m peer id h = elim (Bool-cases (any (removed_since peer) m.store.removed)) [
  | inl old ↦ rw (member_step, old) h
  | inr new ↦ elim (Option-cases (get m.store peer.device_id)) [
    | inl unknown ↦
        rw
          (member_step, new, unknown, lookup-append (λ p. p.device_id) m.store.peers (peer ∷ []) id)
          (ground (arith, h))
    | inr (known, there) ↦
        rw
          (
            member_step,
            new,
            there,
            is_some-update_first (λ p. p.device_id) (is_peer peer.device_id) (refresh peer)
                (refresh-device_id peer) m.store.peers id,
          )
          h
  ]
]

removal_step-accounted :
    (m : Progress) (peer : Peer) (at : ℕ) (id : DeviceId)
    → accounted id m ≡ true
    → accounted id (removal_step m peer at) ≡ true
unfolding removal_step get expel remember_removal
removal_step-accounted m peer at id h = elim (Option-cases (get m.store peer.device_id)) [
  | inl unknown ↦
      elim (Bool-cases
        (any (λ r. is_removed peer.device_id r && leb at r.removed_at_ms) m.store.removed)) [
          | inl heard ↦ rw (removal_step, unknown, heard) h
          | inr news ↦ rw (removal_step, unknown, news) h
        ]
  | inr (known, there) ↦ elim (Bool-cases (leb known.paired_at_ms at)) [
    | inr older ↦ rw (removal_step, there, older) h
    | inl newer ↦
        rw (removal_step, there, newer, contains-snoc m.removed peer.device_id id)
          (expelled m.store.peers known.device_id peer.device_id id (contains m.removed id)
            (lookup-key (λ p. p.device_id) m.store.peers peer.device_id known there) h)
  ]
]

module _ (me sender : DeviceId) where
  merge_members-accounted :
      (rs : List RosterPeer) (m : Progress) (id : DeviceId)
      → accounted id m ≡ true
      → accounted id (merge_members me sender m rs) ≡ true
  unfolding merge_members
  merge_members-accounted [] m id h = h
  merge_members-accounted (r ∷ rs) m id h = elim (Option-cases (candidate me sender r)) [
    | inl ignored ↦ rw (merge_members, ignored) (merge_members-accounted rs m id h)
    | inr (peer, counts) ↦
        rw (merge_members, counts)
          (merge_members-accounted rs (member_step m peer) id (member_step-accounted m peer id h))
  ]

  merge_removals-accounted :
      (rs : List RosterRemoval) (m : Progress) (id : DeviceId)
      → accounted id m ≡ true
      → accounted id (merge_removals me sender m rs) ≡ true
  unfolding merge_removals
  merge_removals-accounted [] m id h = h
  merge_removals-accounted (r ∷ rs) m id h = elim (Option-cases (candidate me sender r.peer)) [
    | inl ignored ↦ rw (merge_removals, ignored) (merge_removals-accounted rs m id h)
    | inr (peer, counts) ↦
        rw (merge_removals, counts)
          (merge_removals-accounted rs (removal_step m peer r.removed_at_ms) id
            (removal_step-accounted m peer r.removed_at_ms id h))
  ]

  -- Whoever was paired before a merge is paired after it or among those that it removed.
  pub merged-accounted :
      (s : PeerStore) (news : Roster) (id : DeviceId)
      → is_some (get s id) ≡ true
      → accounted id (merged me sender s news) ≡ true
  unfolding merged
  merged-accounted s news id h =
      merge_removals-accounted (take max_roster_entries news.removed) _ id
        (merge_members-accounted (take max_roster_entries news.members) _ id (ground (arith, h)))
