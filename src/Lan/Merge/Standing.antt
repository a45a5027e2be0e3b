-- ===== src/Lan/Merge/Standing.antt =====
-- What a store says of one device, and what a roster's entries make of it: the specification of
-- `merge` for one device.
use cled.Common.{List, [], if◌then◌else◌, leb, ltb, nat_eq, none, not, some, ℕ, ◌&&◌, ◌==◌, ◌∷◌}
use cled.Common.Keyed.{lookup}
use cled.Sync.Item.{DeviceId}
use cled.Lan.Wire.{RosterPeer, RosterRemoval}
use cled.Lan.Peers.{PeerStore}
use cled.Lan.Peers.Valid.{peer_key, removed_key}
use cled.Lan.Merge.{candidate}

pub data Standing : Type 0 where
  unknown : Standing
  member : (since key : ℕ) → Standing
  gone : (at : ℕ) → Standing

abbrev pub standing : PeerStore → DeviceId → Standing
standing s id = elim (lookup peer_key s.peers id) [
  | some p ↦ member p.paired_at_ms p.public_key
  | none ↦ elim (lookup removed_key s.removed id) [ some r ↦ gone r.removed_at_ms | none ↦ unknown ]
]

-- A device joins with a key: not if it was removed since, and a known one only changes its key.
abbrev pub join : Standing → ℕ → ℕ → Standing
join unknown since key = member since key
join (member since' key') since key =
    if not (key' == key) && ltb since' since then member since key else member since' key'
join (gone at) since key = if leb since at then gone at else member since key

-- A device is removed: not if it joined since, and the latest removal is kept.
abbrev pub leave : Standing → ℕ → Standing
leave unknown at = gone at
leave (member since key) at = if leb since at then gone at else member since key
leave (gone at') at = if leb at at' then gone at' else gone at

module _ (me sender id : DeviceId) where
  abbrev pub join_entry : Standing → RosterPeer → Standing
  join_entry st r = elim (candidate me sender r) [
    | none ↦ st
    | some p ↦ if p.device_id == id then join st p.paired_at_ms p.public_key else st
  ]

  unfoldable pub join_all : Standing → List RosterPeer → Standing
  join_all st [] = st
  join_all st (r ∷ rs) = join_all (join_entry st r) rs

  abbrev pub leave_entry : Standing → RosterRemoval → Standing
  leave_entry st r = elim (candidate me sender r.peer) [
    | none ↦ st
    | some p ↦ if p.device_id == id then leave st r.removed_at_ms else st
  ]

  unfoldable pub leave_all : Standing → List RosterRemoval → Standing
  leave_all st [] = st
  leave_all st (r ∷ rs) = leave_all (leave_entry st r) rs
