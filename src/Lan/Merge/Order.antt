-- ===== src/Lan/Merge/Order.antt =====
-- What a roster says of this device or of its sender counts for nothing.
use cled.Common.{
  Bool, List, Option-cases, [], arith, false, inl, inr, length, nat_eq, refl, some, take, true, ◌+◌,
  ◌==◌, ◌||◌, ◌∙◌, ◌∷◌, ◌≡◌, ◌≤◌,
}
use cled.Sync.Item.{DeviceId}
use cled.Lan.Wire.{RosterPeer, RosterRemoval, Roster}
use cled.Lan.Peers.{Peer, PeerStore, max_removed, max_roster_entries}
use cled.Lan.Peers.Valid.{IsValid}
use cled.Lan.Merge.{candidate, about_others, merge}
use cled.Lan.Merge.Standing.{Standing, standing, join_entry, join_all, leave_entry, leave_all}
use cled.Lan.Merge.Refines.{merge-standing}

module _ (me sender : DeviceId) where
  candidate-others :
      (r : RosterPeer) (p : Peer)
      → candidate me sender r ≡ some p
      → (p.device_id == me) || (p.device_id == sender) ≡ false
  unfolding candidate about_others
  candidate-others r p h = ground arith

  join_entry_own :
      (id : DeviceId)
      → (id == me || id == sender) ≡ true
      → (st : Standing) (r : RosterPeer) → join_entry me sender id st r ≡ st
  join_entry_own id own st r = elim (Option-cases (candidate me sender r)) [
    | inl e ↦ rw (e, join_entry)
    | inr (p, e) ↦ rw (e, join_entry) (ground (arith, candidate-others r p e))
  ]

  join_all_own :
      (id : DeviceId)
      → (id == me || id == sender) ≡ true
      → (rs : List RosterPeer) (st : Standing) → join_all me sender id st rs ≡ st
  unfolding join_all
  join_all_own id own [] st = refl
  join_all_own id own (r ∷ rs) st =
      join_all_own id own rs (join_entry me sender id st r) ∙ join_entry_own id own st r

  leave_entry_own :
      (id : DeviceId)
      → (id == me || id == sender) ≡ true
      → (st : Standing) (r : RosterRemoval) → leave_entry me sender id st r ≡ st
  leave_entry_own id own st r = elim (Option-cases (candidate me sender r.peer)) [
    | inl e ↦ rw (e, leave_entry)
    | inr (p, e) ↦ rw (e, leave_entry) (ground (arith, candidate-others r.peer p e))
  ]

  leave_all_own :
      (id : DeviceId)
      → (id == me || id == sender) ≡ true
      → (rs : List RosterRemoval) (st : Standing) → leave_all me sender id st rs ≡ st
  unfolding leave_all
  leave_all_own id own [] st = refl
  leave_all_own id own (r ∷ rs) st =
      leave_all_own id own rs (leave_entry me sender id st r) ∙ leave_entry_own id own st r

  -- No roster changes what is known of this device itself or of its sender, in a valid store with
  -- room for the removals of the roster.
  pub merge-standing_own :
      (s : PeerStore) (roster : Roster) (disk : Bool) (id : DeviceId)
      → IsValid s
      → length s.removed + length (take max_roster_entries roster.removed) ≤ max_removed
      → (id == me || id == sender) ≡ true
      → standing (merge me sender s roster disk).0 id ≡ standing s id
  merge-standing_own s roster disk id v room own =
      merge-standing me sender id s roster disk v room
      ∙ (leave_all_own id own _ _ ∙ join_all_own id own _ _)
