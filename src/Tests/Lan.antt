-- ===== src/Tests/Lan.antt =====
-- The theorems of paired devices at concrete inputs.
use cled.Common.{nat_eq, [], arith, false, find, is_some, none, refl, true, ℕ, ◌&&◌, ◌==◌, ◌∷◌, ◌≡◌}
use cled.Lan.Wire.{RosterPeer, Roster}
use cled.Lan.Peers.{Peer, Removed, PeerStore}
use cled.Lan.Peers.Valid.{IsValid}
use cled.Lan.Merge.{merge}
use cled.Lan.Merge.Valid.{apply, apply-IsValid, merges}
use cled.Lan.Merge.Standing.{standing, member, gone, join_all, leave_all}
use cled.Lan.Merge.Refines.{merge-standing}
use cled.Lan.Merge.Order.{merge-standing_own}
use cled.Lan.Merge.Removal.{GoneSince, merge-GoneSince, merge-removes}
use cled.Lan.Merge.Conflict.{merge_order, joining, leaving}

abbrev peer_of : ℕ → ℕ → Peer
peer_of id at = record {
  device_id = id;
  name = b'a' ∷ [];
  public_key = 7;
  paired_at_ms = at;
  last_address = none;
}

abbrev entry_of : ℕ → ℕ → RosterPeer
entry_of id at = record {
  device_id = id;
  name = b'a' ∷ [];
  public_key = 7;
  paired_at_ms = at;
  address = none;
}

-- The device 2 is paired since 1, the device 3 was removed at 5.
abbrev store : PeerStore
store = record {
  peers = peer_of 2 1 ∷ [];
  removed = record { peer = peer_of 3 1; removed_at_ms = 5; notified = false } ∷ [];
  file = none;
}

apart :
    (id : ℕ)
    → (is_some (find (λ (p : Peer). p.device_id == id) store.peers)
        && is_some (find (λ (r : Removed). r.peer.device_id == id) store.removed))
      ≡ false
apart id = ground arith

store-IsValid : IsValid store
store-IsValid = record {
  peers = (refl, tt);
  removed = (refl, tt);
  apart = apart;
  bounded = omega arith;
}

-- The sender 8 has the device 3 as a member since 4, and removed the device 2 at 9.
abbrev news : Roster
news = record {
  members = entry_of 3 4 ∷ [];
  removed = record { peer = entry_of 2 1; removed_at_ms = 9 } ∷ [];
}

apply-IsValid_example : IsValid (apply store (merges 1 8 news, true))
apply-IsValid_example = apply-IsValid store (merges 1 8 news, true) store-IsValid

merge-standing_example :
    standing (merge 1 8 store news true).0 2
    ≡ leave_all 1 8 2 (join_all 1 8 2 (standing store 2) news.members) news.removed
merge-standing_example = merge-standing 1 8 2 store news true store-IsValid (omega arith)

merge-standing_own_example : standing (merge 1 2 store news true).0 2 ≡ standing store 2
merge-standing_own_example =
    merge-standing_own 1 2 store news true 2 store-IsValid (omega arith) refl

merge-GoneSince_example : GoneSince 5 (standing (merge 1 8 store news true).0 3)
merge-GoneSince_example =
    merge-GoneSince 1 8 3 store news true 5 store-IsValid (omega arith) refl (omega arith)

merge-removes_example : GoneSince 9 (standing (merge 1 8 store news true).0 2)
merge-removes_example =
    merge-removes 1 8 2 store news true 9 store-IsValid (omega arith) refl refl refl (omega arith)

merge_order_example :
    (standing
        (merge 1 8
          (merge 1 8 store (joining 1 8 (entry_of 2 5)) true).0
          (leaving 1 8 (record { peer = entry_of 2 5; removed_at_ms = 3 }))
          true).0
        2
      ≡ gone 3)
    × (standing
          (merge 1 8
            (merge 1 8 store
              (leaving 1 8 (record { peer = entry_of 2 5; removed_at_ms = 3 }))
              true).0
            (joining 1 8 (entry_of 2 5))
            true).0
          2
        ≡ member 5 7)
merge_order_example =
    merge_order 1 8 store (entry_of 2 5) 3 1 true true store-IsValid (omega arith) refl
      (omega arith) refl (omega arith) (omega arith)
