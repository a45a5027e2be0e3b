-- ===== src/Lan/Merge/Settled.antt =====
-- `merge` of crates/cled-lan/src/peers.rs and a device that is removed already: no roster that knows of no later
-- joining reports it as added or removed.
use cled.Common.{
  ℕ, ◌≡◌, refl, sym, ap, ◌∙◌, List, [], ◌∷◌, ◌&&◌, true, false, none, some, ◌≤◌, ◌==◌, inl, inr,
  arith, Bool-cases, Option-cases, all, any, contains, contains-snoc, nat_eq, nat_eq_iff, take, leb,
  subst, &&-eq-true,
}
use cled.Sync.Item.{DeviceId}
use cled.Lan.Wire.{RosterPeer, RosterRemoval, Roster}
use cled.Lan.Peers.{Peer, PeerStore, get, expel, remember_removal, is_removed, max_roster_entries}
use cled.Lan.Peers.Valid.{IsValid, peer_key}
use cled.Common.Keyed.{lookup-key}
use cled.Lan.Merge.{
  Progress, candidate, member_step, removal_step, merge_members, merge_removals, merged,
  removed_since,
}
use cled.Lan.Merge.Standing.{standing}
use cled.Lan.Merge.Steps.{member_step-standing, removed_since-lookup}
use cled.Lan.Merge.Valid.{member_step-IsValid}
use cled.Lan.Merge.Removal.{GoneSince, joined_by, candidate-fields}
use cled.Lan.Merge.Refines.{start}
use cled.Lan.Merge.Expelled.{remove_first-other}

-- A device that is gone is not paired.
pub GoneSince-get :
    (at : ℕ) (s : PeerStore) (id : DeviceId) → GoneSince at (standing s id) → get s id ≡ none
unfolding get
GoneSince-get at s id h = ground arith

-- An entry of a device that joined no later is passed over.
passed_over :
    (at : ℕ) (m : Progress) (peer : Peer)
    → IsValid m.store
    → GoneSince at (standing m.store peer.device_id)
    → peer.paired_at_ms ≤ at
    → member_step m peer ≡ m
unfolding member_step
passed_over at m peer v h le =
    let old : any (removed_since peer) m.store.removed ≡ true =
      removed_since-lookup m.store peer v ∙ ground (arith, h, le) in
    rw (member_step, old) refl

member_step-removed : (m : Progress) (peer : Peer) → (member_step m peer).removed ≡ m.removed
unfolding member_step
member_step-removed m peer = ground arith

member_step-added :
    (m : Progress) (peer : Peer) (id : DeviceId)
    → (peer.device_id == id) ≡ false
    → contains (member_step m peer).added id ≡ contains m.added id
unfolding member_step
member_step-added m peer id other = ground (arith, other, contains-snoc m.added peer.device_id id)

-- The device is gone, and none of the entries so far has changed that.
record Settled (at : ℕ) (id : DeviceId) (m : Progress) : Type 0 where
  pub valid : IsValid m.store
  pub gone : GoneSince at (standing m.store id)
  pub not_added : contains m.added id ≡ false
  pub not_removed : contains m.removed id ≡ false

member_step-Settled :
    (at : ℕ) (id : DeviceId) (m : Progress) (peer : Peer)
    → ((peer.device_id == id) ≡ true → peer.paired_at_ms ≤ at)
    → Settled at id m
    → Settled at id (member_step m peer)
member_step-Settled at id m peer old s = elim (Bool-cases (peer.device_id == id)) [
  | inl mine ↦
      let here : GoneSince at (standing m.store peer.device_id) =
        subst (λ i. GoneSince at (standing m.store i)) (sym ((nat_eq_iff peer.device_id id).0 mine))
          s.gone in
      subst (Settled at id) (sym (passed_over at m peer s.valid here (old mine))) s
  | inr other ↦ record {
    valid = member_step-IsValid m peer s.valid;
    gone = rw (member_step-standing m peer id s.valid, other) s.gone;
    not_added = member_step-added m peer id other ∙ s.not_added;
    not_removed = ap (λ ids. contains ids id) (member_step-removed m peer) ∙ s.not_removed;
  }
]

-- The device is not paired, and not among those that the merge has added or removed so far.
pub record IsAbsent (id : DeviceId) (m : Progress) : Type 0 where
  pub unpaired : get m.store id ≡ none
  pub not_added : contains m.added id ≡ false
  pub not_removed : contains m.removed id ≡ false

get-apart :
    (s : PeerStore) (k id : DeviceId) (p : Peer)
    → get s id ≡ none
    → get s k ≡ some p
    → (k == id) ≡ false
get-apart s k id p h there = elim (Bool-cases (k == id)) [
  | inr apart ↦ apart
  | inl same ↦
      let both : some p ≡ none = sym there ∙ ap (get s) ((nat_eq_iff k id).0 same) ∙ h in
      absurd (ground arith)
]

removal_step-IsAbsent :
    (m : Progress) (peer : Peer) (at : ℕ) (id : DeviceId)
    → IsAbsent id m
    → IsAbsent id (removal_step m peer at)
unfolding removal_step expel remember_removal get
removal_step-IsAbsent m peer at id h = elim (Option-cases (get m.store peer.device_id)) [
  | inl unknown ↦
      elim (Bool-cases
        (any (λ r. is_removed peer.device_id r && leb at r.removed_at_ms) m.store.removed)) [
          | inl heard ↦ rw (removal_step, unknown, heard) h
          | inr news ↦
              rw (removal_step, unknown, news)
                (record {
                  unpaired = h.unpaired;
                  not_added = h.not_added;
                  not_removed = h.not_removed;
                })
        ]
  | inr (known, there) ↦ elim (Bool-cases (leb known.paired_at_ms at)) [
    | inr older ↦ rw (removal_step, there, older) h
    | inl newer ↦
        let apart : (peer.device_id == id) ≡ false =
          get-apart m.store peer.device_id id known h.unpaired there in
        let same = lookup-key peer_key m.store.peers peer.device_id known there in
        rw (removal_step, there, newer)
          (record {
            unpaired =
                remove_first-other m.store.peers known.device_id id (ap (λ i. i == id) same ∙ apart)
                ∙ h.unpaired;
            not_added = h.not_added;
            not_removed =
                ground (arith, apart, h.not_removed, contains-snoc m.removed peer.device_id id);
          })
  ]
]

joined_old :
    (me sender at : ℕ) (id : DeviceId) (r : RosterPeer) (p : Peer)
    → joined_by at id r ≡ true
    → candidate me sender r ≡ some p
    → (p.device_id == id) ≡ true
    → p.paired_at_ms ≤ at
joined_old me sender at id r p j e mine =
    ground (arith, j, mine, candidate-fields me sender id r p e)

module _ (me sender : DeviceId) where
  merge_members-Settled :
      (at : ℕ) (id : DeviceId) (rs : List RosterPeer) (m : Progress)
      → all (joined_by at id) rs ≡ true
      → Settled at id m
      → Settled at id (merge_members me sender m rs)
  unfolding merge_members
  merge_members-Settled at id [] m j s = s
  merge_members-Settled at id (r ∷ rs) m j s =
      let (first, rest) = &&-eq-true (joined_by at id r) _ j in
      elim (Option-cases (candidate me sender r)) [
        | inl e ↦ rw (merge_members, e) (merge_members-Settled at id rs m rest s)
        | inr (p, e) ↦
            rw (merge_members, e)
              (merge_members-Settled at id rs (member_step m p) rest
                (member_step-Settled at id m p (joined_old me sender at id r p first e) s))
      ]

  merge_removals-IsAbsent :
      (id : DeviceId) (rs : List RosterRemoval) (m : Progress)
      → IsAbsent id m
      → IsAbsent id (merge_removals me sender m rs)
  unfolding merge_removals
  merge_removals-IsAbsent id [] m h = h
  merge_removals-IsAbsent id (r ∷ rs) m h = elim (Option-cases (candidate me sender r.peer)) [
    | inl e ↦ rw (merge_removals, e) (merge_removals-IsAbsent id rs m h)
    | inr (p, e) ↦
        rw (merge_removals, e)
          (merge_removals-IsAbsent id rs (removal_step m p r.removed_at_ms)
            (removal_step-IsAbsent m p r.removed_at_ms id h))
  ]

  -- A device that is gone stays so under a roster in which it joined no later, and is not reported.
  pub merged-IsAbsent :
      (at : ℕ) (id : DeviceId) (s : PeerStore) (roster : Roster)
      → IsValid s
      → GoneSince at (standing s id)
      → all (joined_by at id) (take max_roster_entries roster.members) ≡ true
      → IsAbsent id (merged me sender s roster)
  unfolding merged
  merged-IsAbsent at id s roster v h j =
      let settled =
        merge_members-Settled at id (take max_roster_entries roster.members) (start s) j
          (record { valid = v; gone = h; not_added = refl; not_removed = refl }) in
      merge_removals-IsAbsent id (take max_roster_entries roster.removed) _ (record {
        unpaired = GoneSince-get at _ id settled.gone;
        not_added = settled.not_added;
        not_removed = settled.not_removed;
      })
