-- ===== src/Lan/Node/Unsaved.antt =====
-- A roster of crates/cled-lan/src/node.rs whose changes cannot be saved.
use cled.Common.{
  Bool, Bool-cases, List, all, any, ap, arith, contains, false, inl, inr, is_some, length, nat_eq,
  none, refl, take, true, ℕ, ◌+◌, ◌==◌, ◌||◌, ◌∙◌, ◌≡◌, ◌≤◌, ◌⊎◌,
}
use cled.Common.Map
use cled.Sync.Item.{DeviceId}
use cled.Lan.Error.{Result, err, io, ok}
use cled.Lan.Wire.{Message, Roster}
use cled.Lan.Merge.{merge, merged, change_of}
use cled.Lan.Merge.Standing.{standing}
use cled.Lan.Merge.Valid.{merge-IsValid}
use cled.Lan.Merge.Removal.{joined_by, removes_at, EndsBy, GoneSince, merge-removes}
use cled.Lan.Merge.Settled.{GoneSince-get, IsAbsent, merged-IsAbsent}
use cled.Lan.Peers
use cled.Lan.Peers.{PeerStore, RosterChange, save, is_empty, max_removed, max_roster_entries}
use cled.Lan.Peers.Valid.{IsValid}
use cled.Lan.Node.{Node}
use cled.Lan.Node.Group.{
  apply_roster, follow, disconnect_all, redial_all, send_roster_to_all, roster_message,
}
use cled.Lan.Node.Links.{connected, disconnect_all-kept, redial_all-kept, send_some-conns}

-- A merge fails or gives its change, and without the disk only one that is empty.
merge-outcome :
    (me from : DeviceId) (s : PeerStore) (news : Roster) (disk : Bool)
    → ((merge me from s news disk).1 ≡ err io)
      ⊎ (((merge me from s news disk).1 ≡ ok (change_of me from (merged me from s news)))
          × ((disk || is_empty (change_of me from (merged me from s news))) ≡ true))
unfolding merge save
merge-outcome me from s news disk = ground arith

module _ (to_stdvec : Message → Result (List ℕ)) where
  follow_nothing : (n : Node) (c : RosterChange) → is_empty c ≡ true → follow to_stdvec n c ≡ n
  unfolding follow
  follow_nothing n c nothing = rw nothing refl

  -- Without the disk nothing changes but the peers.
  apply_roster_unsaved_only :
      (n : Node) (from : DeviceId) (news : Roster)
      → apply_roster to_stdvec n from news false
        ≡ record n { peers = (merge n.device_id from n.peers news false).0 }
  unfolding apply_roster
  apply_roster_unsaved_only n from news =
      let n' : Node = record n { peers = (merge n.device_id from n.peers news false).0 } in
      elim (merge-outcome n.device_id from n.peers news false) [
        | inl failed ↦ rw (apply_roster, failed) refl
        | inr (done, nothing) ↦
            rw (apply_roster, done)
              (follow_nothing n' (change_of n.device_id from (merged n.device_id from n.peers news))
                nothing)
      ]

  follow-kept :
      (n : Node) (c : RosterChange) (id : DeviceId)
      → contains c.added id ≡ false
      → contains c.removed id ≡ false
      → connected n id ≡ true
      → connected (follow to_stdvec n c) id ≡ true
  unfolding follow send_roster_to_all
  follow-kept n c id added removed h = elim (Bool-cases (is_empty c)) [
    | inl nothing ↦ rw nothing h
    | inr news ↦
        let ended = disconnect_all to_stdvec n c.removed in
        let dialed = redial_all ended c.added in
        rw news (
          ap (λ conns. is_some (Map.get conns id))
            (send_some-conns dialed (roster_message to_stdvec dialed))
          ∙ redial_all-kept c.added ended id added
              (disconnect_all-kept to_stdvec c.removed n id removed h))
  ]

  -- A device that the merge does not report stays connected.
  apply_roster-kept :
      (n : Node) (from id : DeviceId) (news : Roster) (disk : Bool)
      → IsAbsent id (merged n.device_id from n.peers news)
      → connected n id ≡ true
      → connected (apply_roster to_stdvec n from news disk) id ≡ true
  unfolding apply_roster
  apply_roster-kept n from id news disk absent h =
      let n' : Node = record n { peers = (merge n.device_id from n.peers news disk).0 } in
      elim (merge-outcome n.device_id from n.peers news disk) [
        | inl failed ↦ rw (apply_roster, failed) h
        | inr (done, _) ↦
            rw (apply_roster, done)
              (follow-kept n' (change_of n.device_id from (merged n.device_id from n.peers news)) id
                absent.not_added absent.not_removed h)
      ]

  -- A roster that removes a connected device, and whose changes cannot be saved, leaves the device connected though
  -- it is not paired any more, and sends nothing to it or to anyone else. The next roster, from whichever device and
  -- saved or not, does not end the connection either, unless the device joins later in it. The removal is one that
  -- takes effect: the device is not this one or the sender, neither the store nor the roster has it joining later,
  -- and the store is valid, with room for the removals of the roster.
  pub apply_roster_unsaved :
      (n : Node) (from by id : DeviceId) (news later : Roster) (disk : Bool) (at : ℕ)
      → IsValid n.peers
      → length n.peers.removed + length (take max_roster_entries news.removed) ≤ max_removed
      → all (joined_by at id) (take max_roster_entries news.members) ≡ true
      → any (removes_at at id) (take max_roster_entries news.removed) ≡ true
      → (id == n.device_id || id == from) ≡ false
      → EndsBy at (standing n.peers id)
      → connected n id ≡ true
      → all (joined_by at id) (take max_roster_entries later.members) ≡ true
      → (Peers.get (apply_roster to_stdvec n from news false).peers id ≡ none)
        × ((apply_roster to_stdvec n from news false).sent ≡ n.sent)
        × (connected (apply_roster to_stdvec n from news false) id ≡ true)
        × (connected
              (apply_roster to_stdvec (apply_roster to_stdvec n from news false) by later disk)
              id
            ≡ true)
  apply_roster_unsaved n from by id news later disk at v room old listed other ends there
        old_later =
      let after : Node = record n { peers = (merge n.device_id from n.peers news false).0 } in
      let gone : GoneSince at (standing after.peers id) =
        merge-removes n.device_id from id n.peers news false at v room old listed other ends in
      let absent =
        merged-IsAbsent n.device_id by at id after.peers later
          (merge-IsValid n.device_id from n.peers news false v) gone old_later in
      rw (apply_roster_unsaved_only n from news) (
        GoneSince-get at after.peers id gone,
        refl,
        there,
        apply_roster-kept after by id later disk absent there,
      )
