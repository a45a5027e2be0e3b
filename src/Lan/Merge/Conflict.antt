-- ===== src/Lan/Merge/Conflict.antt =====
-- Two rosters whose order matters.
use cled.Common.{
  Bool, [], arith, false, length, nat_eq, true, ℕ, ◌<◌, ◌==◌, ◌||◌, ◌∙◌, ◌∷◌, ◌≡◌, ◌≢◌, ◌≤◌,
}
use cled.Sync.Item.{DeviceId}
use cled.Lan.Wire.{RosterPeer, RosterRemoval, Roster}
use cled.Lan.Peers.{PeerStore, max_removed, from_roster, save}
use cled.Lan.Peers.Valid.{IsValid}
use cled.Lan.Merge.{candidate, about_others, merge, merged, merge_removals}
use cled.Lan.Merge.Valid.{merge-IsValid}
use cled.Lan.Merge.Standing.{member, gone, standing, join, leave, join_all, leave_all}
use cled.Lan.Merge.Refines.{merge-standing, merge_members-length, start}

module _ (me sender : DeviceId) where
  abbrev pub joining : RosterPeer → Roster
  joining r = record { members = r ∷ []; removed = [] }

  abbrev pub leaving : RosterRemoval → Roster
  leaving r = record { members = []; removed = r ∷ [] }

  joining-standing :
      (s : PeerStore) (r : RosterPeer) (disk : Bool)
      → IsValid s
      → (r.device_id == me || r.device_id == sender) ≡ false
      → r.public_key ≢ 0
      → standing (merge me sender s (joining r) disk).0 r.device_id
        ≡ join (standing s r.device_id) r.paired_at_ms r.public_key
  unfolding join_all leave_all candidate about_others from_roster
  joining-standing s r disk v other key =
      merge-standing me sender r.device_id s (joining r) disk v (omega (arith, v.bounded))
      ∙ ground arith

  leaving-standing :
      (s : PeerStore) (r : RosterRemoval) (disk : Bool)
      → IsValid s
      → length s.removed < max_removed
      → (r.peer.device_id == me || r.peer.device_id == sender) ≡ false
      → r.peer.public_key ≢ 0
      → standing (merge me sender s (leaving r) disk).0 r.peer.device_id
        ≡ leave (standing s r.peer.device_id) r.removed_at_ms
  unfolding join_all leave_all candidate about_others from_roster
  leaving-standing s r disk v room other key =
      merge-standing me sender r.peer.device_id s (leaving r) disk v (omega (arith, room))
      ∙ ground arith

  joining-length :
      (s : PeerStore) (r : RosterPeer) (disk : Bool)
      → length (merge me sender s (joining r) disk).0.removed ≤ length s.removed
  unfolding merge merged merge_removals save
  joining-length s r true =
      ground (arith, merge_members-length me sender r.device_id (r ∷ []) (start s))
  joining-length s r false =
      ground (arith, merge_members-length me sender r.device_id (r ∷ []) (start s))

  -- A device that is known with a key joined again later with the same key, and was removed in
  -- between. The news of the joining before that of the removal leaves it removed; the other order
  -- leaves it a member: the order of the rosters matters.
  pub merge_order :
      (s : PeerStore) (r : RosterPeer) (at since : ℕ) (disk disk' : Bool)
      → IsValid s
      → length s.removed < max_removed
      → (r.device_id == me || r.device_id == sender) ≡ false
      → r.public_key ≢ 0
      → standing s r.device_id ≡ member since r.public_key
      → since ≤ at
      → at < r.paired_at_ms
      → (standing
            (merge me sender
              (merge me sender s (joining r) disk).0
              (leaving (record { peer = r; removed_at_ms = at }))
              disk').0
            r.device_id
          ≡ gone at)
        × (standing
              (merge me sender
                (merge me sender s (leaving (record { peer = r; removed_at_ms = at })) disk).0
                (joining r)
                disk').0
              r.device_id
            ≡ member r.paired_at_ms r.public_key)
  merge_order s r at since disk disk' v room other key known le lt = (
    leaving-standing _ (record { peer = r; removed_at_ms = at }) disk'
          (merge-IsValid me sender s (joining r) disk v) (omega (arith, joining-length s r disk))
          other key
        ∙ ground (arith, joining-standing s r disk v other key),
    joining-standing _ r disk'
          (merge-IsValid me sender s (leaving (record { peer = r; removed_at_ms = at })) disk v)
          other key
        ∙ ground (
          arith,
          leaving-standing s (record { peer = r; removed_at_ms = at }) disk v room other key,
        ),
  )
