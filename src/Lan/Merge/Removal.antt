-- ===== src/Lan/Merge/Removal.antt =====
-- A removal takes effect: consequences of the specification of `merge`.
use cled.Common.{
  &&-eq-true, Bool, Bool-cases, List, Option-cases, [], all, any, arith, false, if◌then◌else◌, inl,
  inr, leb, leb→le, length, ltb, nat_eq, not, some, subst, sym, take, true, ℕ, ◌&&◌, ◌+◌, ◌==◌,
  ◌||◌, ◌∷◌, ◌≡◌, ◌≤◌,
}
use cled.Sync.Item.{DeviceId}
use cled.Lan.Wire.{RosterPeer, RosterRemoval, Roster}
use cled.Lan.Peers.{Peer, PeerStore, max_removed, from_roster, max_roster_entries}
use cled.Lan.Peers.Valid.{IsValid}
use cled.Lan.Merge.{candidate, about_others, merge}
use cled.Lan.Merge.Standing.{
  Standing, unknown, member, gone, standing, join, leave, join_entry, join_all, leave_entry,
  leave_all,
}
use cled.Lan.Merge.Refines.{merge-standing}

-- An entry that is the device joining no later than a time, or another device.
abbrev pub joined_by : ℕ → DeviceId → RosterPeer → Bool
joined_by at id r = not (r.device_id == id) || leb r.paired_at_ms at

-- An entry that is the removal of the device at a time, with a key.
abbrev pub removes_at : ℕ → DeviceId → RosterRemoval → Bool
removes_at at id r =
    r.peer.device_id == id && (r.removed_at_ms == at && not (r.peer.public_key == 0))

-- A standing that a removal at the time ends.
abbrev pub EndsBy : ℕ → Standing → Type 0
EndsBy at unknown = Unit {0}
EndsBy at (member since key) = since ≤ at
EndsBy at (gone _) = Unit {0}

-- Removed, at the time or later.
abbrev pub GoneSince : ℕ → Standing → Type 0
GoneSince at unknown = ⊥
GoneSince at (member since key) = ⊥
GoneSince at (gone at') = at ≤ at'

join-EndsBy :
    (at : ℕ) (st : Standing) (since key : ℕ)
    → since ≤ at
    → EndsBy at st
    → EndsBy at (join st since key)
join-EndsBy at unknown since key le h = le
join-EndsBy at (member since' key') since key le h =
    elim (not (key' == key) && ltb since' since)
      as (λ b. EndsBy at (if b then member since key else member since' key')) [
        | true ↦ le
        | false ↦ h
      ]
join-EndsBy at (gone at') since key le h =
    elim (leb since at') as (λ b. EndsBy at (if b then gone at' else member since key)) [
      | true ↦ tt
      | false ↦ le
    ]

leave-GoneSince : (at : ℕ) (st : Standing) (at' : ℕ) → GoneSince at st → GoneSince at (leave st at')
leave-GoneSince at unknown at' h = absurd h
leave-GoneSince at (member since key) at' h = absurd h
leave-GoneSince at (gone at'') at' h = elim (Bool-cases (leb at' at'')) [
  | inl older ↦ rw older h
  | inr newer ↦ rw newer (ground arith)
]

leave-EndsBy : (at : ℕ) (st : Standing) (at' : ℕ) → EndsBy at st → EndsBy at (leave st at')
leave-EndsBy at unknown at' h = tt
leave-EndsBy at (member since key) at' h =
    elim (leb since at') as (λ b. EndsBy at (if b then gone at' else member since key)) [
      | true ↦ tt
      | false ↦ h
    ]
leave-EndsBy at (gone at'') at' h =
    elim (leb at' at'') as (λ b. EndsBy at (if b then gone at'' else gone at')) [
      | true ↦ tt
      | false ↦ tt
    ]

leave_now : (at : ℕ) (st : Standing) → EndsBy at st → GoneSince at (leave st at)
leave_now at unknown h = omega arith
leave_now at (member since key) h = elim (Bool-cases (leb since at)) [
  | inl due ↦ rw due (omega arith)
  | inr late ↦ absurd (ground arith)
]
leave_now at (gone at') h = elim (Bool-cases (leb at at')) [
  | inl older ↦ rw older (leb→le at at' older)
  | inr newer ↦ rw newer (omega arith)
]

join-GoneSince :
    (at : ℕ) (st : Standing) (since key : ℕ)
    → since ≤ at
    → GoneSince at st
    → GoneSince at (join st since key)
join-GoneSince at unknown since key le h = absurd h
join-GoneSince at (member since' key') since key le h = absurd h
join-GoneSince at (gone at') since key le h = elim (Bool-cases (leb since at')) [
  | inl older ↦ rw older h
  | inr newer ↦ absurd (ground arith)
]

module _ (me sender id : DeviceId) where
  pub candidate-fields :
      (r : RosterPeer) (p : Peer)
      → candidate me sender r ≡ some p
      → (p.device_id ≡ r.device_id) × (p.paired_at_ms ≡ r.paired_at_ms)
  unfolding candidate from_roster
  candidate-fields r p h = ground arith

  -- What joining no later than the time keeps is kept by all the entries.
  join_all-keeps :
      (at : ℕ) (P : Standing → Type 0)
      → ((st : Standing) (since key : ℕ) → since ≤ at → P st → P (join st since key))
      → (rs : List RosterPeer) (st : Standing) → all (joined_by at id) rs ≡ true
      → P st
      → P (join_all me sender id st rs)
  unfolding join_all
  join_all-keeps at P keep [] st j h = h
  join_all-keeps at P keep (r ∷ rs) st j h =
      let (first, rest) = &&-eq-true (joined_by at id r) _ j in
      join_all-keeps at P keep rs _ rest (elim (Option-cases (candidate me sender r)) [
        | inl e ↦ rw (e, join_entry) h
        | inr (p, e) ↦ elim (Bool-cases (p.device_id == id)) [
          | inl mine ↦
              rw (e, join_entry, mine)
                (keep st p.paired_at_ms p.public_key (ground (arith, first, candidate-fields r p e))
                  h)
          | inr other ↦ rw (e, join_entry, other) h
        ]
      ])

  leave_entry-keeps :
      (P : Standing → Type 0)
      → ((st : Standing) (at : ℕ) → P st → P (leave st at))
      → (r : RosterRemoval) (st : Standing) → P st
      → P (leave_entry me sender id st r)
  leave_entry-keeps P keep r st h = elim (Option-cases (candidate me sender r.peer)) [
    | inl e ↦ rw (e, leave_entry) h
    | inr (p, e) ↦ elim (Bool-cases (p.device_id == id)) [
      | inl mine ↦ rw (e, leave_entry, mine) (keep st r.removed_at_ms h)
      | inr other ↦ rw (e, leave_entry, other) h
    ]
  ]

  leave_all-GoneSince :
      (at : ℕ) (rs : List RosterRemoval) (st : Standing)
      → GoneSince at st
      → GoneSince at (leave_all me sender id st rs)
  unfolding leave_all
  leave_all-GoneSince at [] st h = h
  leave_all-GoneSince at (r ∷ rs) st h =
      leave_all-GoneSince at rs _
        (leave_entry-keeps (GoneSince at) (λ st at'. leave-GoneSince at st at') r st h)

  leave_entry_hit :
      (at : ℕ) (r : RosterRemoval) (st : Standing)
      → removes_at at id r ≡ true
      → (id == me || id == sender) ≡ false
      → leave_entry me sender id st r ≡ leave st at
  unfolding candidate from_roster about_others
  leave_entry_hit at r st hit other = ground arith

  leave_all-removes :
      (at : ℕ) (rs : List RosterRemoval) (st : Standing)
      → any (removes_at at id) rs ≡ true
      → (id == me || id == sender) ≡ false
      → EndsBy at st
      → GoneSince at (leave_all me sender id st rs)
  unfolding leave_all
  leave_all-removes at [] st listed other h = cc
  leave_all-removes at (r ∷ rs) st listed other h = elim (Bool-cases (removes_at at id r)) [
    | inl hit ↦
        leave_all-GoneSince at rs _ (rw (leave_entry_hit at r st hit other) (leave_now at st h))
    | inr miss ↦
        leave_all-removes at rs _ (ground arith) other
          (leave_entry-keeps (EndsBy at) (λ st at'. leave-EndsBy at st at') r st h)
  ]

  -- A device that was removed stays removed, at that time or later, under any roster in which it
  -- joined no later than that: no device that has not heard of the removal adds it back. The store is
  -- valid, with room for the removals of the roster.
  pub merge-GoneSince :
      (s : PeerStore) (roster : Roster) (disk : Bool) (at : ℕ)
      → IsValid s
      → length s.removed + length (take max_roster_entries roster.removed) ≤ max_removed
      → all (joined_by at id) (take max_roster_entries roster.members) ≡ true
      → GoneSince at (standing s id)
      → GoneSince at (standing (merge me sender s roster disk).0 id)
  merge-GoneSince s roster disk at v room old h =
      subst (GoneSince at) (sym (merge-standing me sender id s roster disk v room)) (
        leave_all-GoneSince at _ _ (
          join_all-keeps at (GoneSince at) (λ st since key. join-GoneSince at st since key) _ _ old
            h))

  -- A removal that the roster brings, of a device other than this one and the sender, takes effect
  -- whatever else the roster says of the device, if neither this store nor the roster has it joining
  -- later. The store is valid, with room for the removals of the roster.
  pub merge-removes :
      (s : PeerStore) (roster : Roster) (disk : Bool) (at : ℕ)
      → IsValid s
      → length s.removed + length (take max_roster_entries roster.removed) ≤ max_removed
      → all (joined_by at id) (take max_roster_entries roster.members) ≡ true
      → any (removes_at at id) (take max_roster_entries roster.removed) ≡ true
      → (id == me || id == sender) ≡ false
      → EndsBy at (standing s id)
      → GoneSince at (standing (merge me sender s roster disk).0 id)
  merge-removes s roster disk at v room old listed other h =
      subst (GoneSince at) (sym (merge-standing me sender id s roster disk v room)) (
        leave_all-removes at _ _ listed other
          (join_all-keeps at (EndsBy at) (λ st since key. join-EndsBy at st since key) _ _ old h))
