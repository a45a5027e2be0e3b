-- ===== src/Lan/Merge/Refines.antt =====
-- `merge` does to each device what its specification says.
use cled.Common.{
  Bool, List, Option-cases, [], ap, arith, false, if◌then◌else◌, inl, inr, length, nat_eq, none,
  refl, some, take, true, ◌+◌, ◌<◌, ◌==◌, ◌∙◌, ◌∷◌, ◌≡◌, ◌≤◌,
}
use cled.Lan.Merge.Valid.{merge_members-IsValid, removal_step-IsValid, member_step-IsValid}
use cled.Lan.Wire.{RosterRemoval, RosterPeer, Roster}
use cled.Sync.Item.{DeviceId}
use cled.Lan.Peers.{Peer, PeerStore, max_removed, save, max_roster_entries}
use cled.Lan.Peers.Valid.{IsValid}
use cled.Lan.Merge.{
  Progress, member_step, removal_step, merge_removals, merge_members, merge, candidate, merged,
}
use cled.Lan.Merge.Standing.{
  standing, join, leave, leave_all, join_all, Standing, join_entry, leave_entry,
}
use cled.Lan.Merge.Steps.{
  member_step-standing, removal_step-standing, removal_step-length, member_step-length,
}

abbrev pub start : PeerStore → Progress
start s = record { store = s; added = []; removed = []; removals_learned = false; dirty = false }

module _ (me sender : DeviceId) (id : DeviceId) where
  join_entry-none :
      (st : Standing) (r : RosterPeer)
      → candidate me sender r ≡ none
      → st ≡ join_entry me sender id st r
  join_entry-none st r e = ground arith

  join_entry-some :
      (st : Standing) (r : RosterPeer) (p : Peer)
      → candidate me sender r ≡ some p
      → (if p.device_id == id then join st p.paired_at_ms p.public_key else st)
        ≡ join_entry me sender id st r
  join_entry-some st r p e = rw (e, join_entry)

  leave_entry-none :
      (st : Standing) (r : RosterRemoval)
      → candidate me sender r.peer ≡ none
      → st ≡ leave_entry me sender id st r
  leave_entry-none st r e = ground arith

  leave_entry-some :
      (st : Standing) (r : RosterRemoval) (p : Peer)
      → candidate me sender r.peer ≡ some p
      → (if p.device_id == id then leave st r.removed_at_ms else st) ≡ leave_entry me sender id st r
  leave_entry-some st r p e = rw (e, leave_entry)

  merge_members-standing :
      (rs : List RosterPeer) (m : Progress)
      → IsValid m.store
      → standing (merge_members me sender m rs).store id
        ≡ join_all me sender id (standing m.store id) rs
  unfolding merge_members join_all
  merge_members-standing [] m v = refl
  merge_members-standing (r ∷ rs) m v = elim (Option-cases (candidate me sender r)) [
    | inl e ↦
        rw (e, merge_members)
          (merge_members-standing rs m v
            ∙ ap (λ st. join_all me sender id st rs) (join_entry-none (standing m.store id) r e))
    | inr (p, e) ↦
        rw (e, merge_members)
          (merge_members-standing rs (member_step m p) (member_step-IsValid m p v)
            ∙ ap (λ st. join_all me sender id st rs)
                (member_step-standing m p id v ∙ join_entry-some (standing m.store id) r p e))
  ]

  merge_removals-standing :
      (rs : List RosterRemoval) (m : Progress)
      → IsValid m.store
      → length m.store.removed + length rs ≤ max_removed
      → standing (merge_removals me sender m rs).store id
        ≡ leave_all me sender id (standing m.store id) rs
  unfolding merge_removals leave_all
  merge_removals-standing [] m v room = refl
  merge_removals-standing (r ∷ rs) m v room = elim (Option-cases (candidate me sender r.peer)) [
    | inl e ↦
        rw (e, merge_removals)
          (merge_removals-standing rs m v (omega arith)
            ∙ ap (λ st. leave_all me sender id st rs) (leave_entry-none (standing m.store id) r e))
    | inr (p, e) ↦
        let at = r.removed_at_ms in
        let few : length m.store.removed < max_removed = omega arith in
        rw (e, merge_removals)
          (merge_removals-standing rs (removal_step m p at) (removal_step-IsValid m p at v)
              (omega (arith, removal_step-length m p at few))
            ∙ ap (λ st. leave_all me sender id st rs)
                (removal_step-standing m p at id v few
                  ∙ leave_entry-some (standing m.store id) r p e))
  ]

  pub merge_members-length :
      (rs : List RosterPeer) (m : Progress)
      → length (merge_members me sender m rs).store.removed ≤ length m.store.removed
  unfolding merge_members
  merge_members-length [] m = omega arith
  merge_members-length (r ∷ rs) m = elim (Option-cases (candidate me sender r)) [
    | inl e ↦ rw (e, merge_members) (merge_members-length rs m)
    | inr (p, e) ↦
        rw (e, merge_members)
          (omega (arith, merge_members-length rs (member_step m p), member_step-length m p))
  ]

  merge-merged :
      (s : PeerStore) (roster : Roster) (disk : Bool)
      → standing (merge me sender s roster disk).0 id
        ≡ standing (merged me sender s roster).store id
  unfolding merge save
  merge-merged s roster true = ground arith
  merge-merged s roster false = ground arith

  -- What a merge makes of each device is what the entries about it make of its standing, the members
  -- first and then the removals, each in order, if the store is valid and has room for as many
  -- removals as the roster holds.
  pub merge-standing :
      (s : PeerStore) (roster : Roster) (disk : Bool)
      → IsValid s
      → length s.removed + length (take max_roster_entries roster.removed) ≤ max_removed
      → standing (merge me sender s roster disk).0 id
        ≡ leave_all me sender id
            (join_all me sender id (standing s id) (take max_roster_entries roster.members))
            (take max_roster_entries roster.removed)
  merge-standing s roster disk v room =
      merge-merged s roster disk
      ∙ (unfold merged in
          merge_removals-standing _ _ (merge_members-IsValid me sender _ _ v)
            (omega (arith, merge_members-length (take max_roster_entries roster.members) (start s)))
          ∙ ap (λ st. leave_all me sender id st (take max_roster_entries roster.removed))
              (merge_members-standing _ (start s) v))
