-- ===== src/Lan/Merge.antt =====
-- crates/cled-lan/src/peers.rs: `merge`, which takes in the roster of a paired device.
pub mod Standing
pub mod Valid
pub mod Steps
pub mod Refines
pub mod Order
pub mod Removal
pub mod Conflict
pub mod Expelled
pub mod Settled
use cled.Common.{
  Bool, List, Option, [], any, false, if◌then◌else◌, is_some, leb, ltb, nat_eq, none, not, retain,
  some, take, true, update_first, ℕ, ◌&&◌, ◌++◌, ◌==◌, ◌||◌, ◌∷◌,
}
use cled.Sync.Item.{DeviceId}
use cled.Lan.Error.{Result, ok}
use cled.Lan.Wire.{RosterPeer, RosterRemoval, Roster}
use cled.Lan.Peers.{
  Peer, Removed, RosterChange, is_empty, PeerStore, max_roster_entries, is_peer, is_removed, get,
  save, save_then, expel, remember_removal, removal, from_roster, or_else,
}

-- The variables of `merge` while it runs.
pub record Progress : Type 0 where
  pub store : PeerStore
  pub added : List DeviceId
  pub removed : List DeviceId
  pub removals_learned : Bool
  pub dirty : Bool

unfoldable pub about_others : DeviceId → DeviceId → DeviceId → Bool
about_others me sender id = not (id == me) && not (id == sender)

-- `from_roster(..).filter(about_others)`.
unfoldable pub candidate : DeviceId → DeviceId → RosterPeer → Option Peer
candidate me sender r = elim (from_roster r) [
  | none ↦ none
  | some peer ↦ if about_others me sender peer.device_id then some peer else none
]

abbrev pub removed_since : Peer → Removed → Bool
removed_since peer r = is_removed peer.device_id r && leb peer.paired_at_ms r.removed_at_ms

abbrev rekeys : Peer → Peer → Bool
rekeys known peer =
    not (known.public_key == peer.public_key) && ltb known.paired_at_ms peer.paired_at_ms

abbrev locates : Peer → Peer → Bool
locates known peer = not (is_some known.last_address) && is_some peer.last_address

-- The changes of a known peer: a newer key, and an address where it had none.
unfoldable pub refresh : Peer → Peer → Peer
refresh peer known =
    let rekeyed : Peer =
      if rekeys known peer
      then record known { public_key = peer.public_key; paired_at_ms = peer.paired_at_ms }
      else known in
    if locates known peer then record rekeyed { last_address = peer.last_address } else rekeyed

-- The body of the loop over the members, for an entry about another device.
unfoldable pub member_step : Progress → Peer → Progress
member_step m peer =
    if any (removed_since peer) m.store.removed then m else elim (get m.store peer.device_id) [
      | some known ↦ record m {
        store = record (m.store) {
          peers = update_first (is_peer peer.device_id) (refresh peer) m.store.peers;
        };
        added = if rekeys known peer then m.added ++ peer.device_id ∷ [] else m.added;
        dirty = m.dirty || locates known peer;
      }
      | none ↦ record m {
        store = record (m.store) {
          peers = m.store.peers ++ peer ∷ [];
          removed = retain (λ r. not (is_removed peer.device_id r)) m.store.removed;
        };
        added = m.added ++ peer.device_id ∷ [];
      }
    ]

-- The body of the loop over the removals, for an entry about another device.
unfoldable pub removal_step : Progress → Peer → ℕ → Progress
removal_step m peer at = elim (get m.store peer.device_id) [
  | some known ↦
      if leb known.paired_at_ms at
      then record m { store = expel m.store known at; removed = m.removed ++ peer.device_id ∷ [] }
      else m
  | none ↦
      if any (λ r. is_removed peer.device_id r && leb at r.removed_at_ms) m.store.removed
      then m
      else record m { store = remember_removal m.store (removal peer at); removals_learned = true }
]

module _ (me sender : DeviceId) where
  unfoldable pub merge_members : Progress → List RosterPeer → Progress
  merge_members m [] = m
  merge_members m (r ∷ rs) =
      merge_members (elim (candidate me sender r) [ none ↦ m | some peer ↦ member_step m peer ]) rs

  unfoldable pub merge_removals : Progress → List RosterRemoval → Progress
  merge_removals m [] = m
  merge_removals m (r ∷ rs) =
      merge_removals
        (elim (candidate me sender r.peer) [
          | none ↦ m
          | some peer ↦ removal_step m peer r.removed_at_ms
        ])
        rs

  -- Both loops, over the entries that count.
  unfoldable pub merged : PeerStore → Roster → Progress
  merged s roster =
      merge_removals
        (merge_members
          (record { store = s; added = []; removed = []; removals_learned = false; dirty = false })
          (take max_roster_entries roster.members))
        (take max_roster_entries roster.removed)

  abbrev pub change_of : Progress → RosterChange
  change_of m = record {
    added = m.added;
    removed = m.removed;
    removals_learned = m.removals_learned;
  }

  unfoldable pub merge : PeerStore → Roster → Bool → PeerStore × Result RosterChange
  merge s roster disk =
      let m = merged s roster in
      let change = change_of m in
      if m.dirty || not (is_empty change)
      then save_then (save m.store disk) change
      else (m.store, ok change)
