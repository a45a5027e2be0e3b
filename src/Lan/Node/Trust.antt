-- ===== src/Lan/Node/Trust.antt =====
-- Who is connected in crates/cled-lan/src/node.rs: paired devices only.
use cled.Common.{
  Bool, Bool-cases, List, Option-cases, [], ap, arith, contains, false, find, if◌then◌else◌, inl,
  inr, is_some, min, nat_eq, nat_eq_iff, not, refl, some, subst, sym, true, ℕ, ◌==◌, ◌||◌, ◌∙◌, ◌∷◌,
  ◌≡◌,
}
use cled.Common.Map
use cled.Common.Map.{get-remove, get-insert}
use cled.Common.Keyed.{lookup-key}
use cled.Sync.Item.{DeviceId}
use cled.Lan.Error.{Result, Result-cases, ok}
use cled.Lan.Wire.{Message, Roster}
use cled.Lan.Merge.{merge, merged, change_of}
use cled.Lan.Merge.Expelled.{merged-accounted, remove_first-other}
use cled.Lan.Peers
use cled.Lan.Peers.{
  Peer, PeerStore, RosterChange, is_nil, save_then, is_empty, save, expel, remember_removal,
}
use cled.Lan.Node.{
  emit, peers_changed, Node, Conn, Instant, register, unregister, enter, send, close,
}
use cled.Lan.Node.Group.{
  disconnect_removed, disconnect_all, redial_all, follow, apply_roster, leave_group,
  send_roster_to_all, roster_message, remove_peer,
}
use cled.Lan.Node.Crossing.{register_stranger, register_free, register_taken}
use cled.Lan.Node.Links.{
  connected, redial_all-get, redial_all-peers, send_some-conns, send_some-peers,
  disconnect_removed-get, disconnect_all-get, disconnect_all-peers, disconnect_removed-peers,
}

-- Every connected device is paired.
abbrev pub IsTrusted : Node → Type 0
IsTrusted n = (id : DeviceId) → connected n id ≡ true → is_some (Peers.get n.peers id) ≡ true

IsTrusted-same : (n m : Node) → m.conns ≡ n.conns → m.peers ≡ n.peers → IsTrusted n → IsTrusted m
IsTrusted-same n m conns peers h id c =
    ap (λ s. is_some (Peers.get s id)) peers
    ∙ h id (ap (λ l. is_some (Map.get l id)) (sym conns) ∙ c)

merge-saved :
    (me from : DeviceId) (s : PeerStore) (news : Roster)
    → ((merge me from s news true).0.peers ≡ (merged me from s news).store.peers)
      × ((merge me from s news true).1 ≡ ok (change_of me from (merged me from s news)))
unfolding merge save
merge-saved me from s news = ground arith

contains-is_nil :
    (ids : List DeviceId) (id : DeviceId) → is_nil ids ≡ true → contains ids id ≡ false
contains-is_nil [] id h = refl
contains-is_nil (i ∷ ids) id h = absurd (ground (arith, h))

empty-removed :
    (c : RosterChange) (id : DeviceId) → is_empty c ≡ true → contains c.removed id ≡ false
unfolding is_empty
empty-removed c id h = ground (arith, h, contains-is_nil c.removed id)

save_then-peers {ℓ} :
    {A : Type ℓ} (s : PeerStore) (disk : Bool) (a : A)
    → (save_then (save s disk) a).0.peers ≡ s.peers
unfolding save
save_then-peers s true a = refl
save_then-peers s false a = refl

expel-get :
    (s : PeerStore) (p : Peer) (at : ℕ) (j : DeviceId)
    → (p.device_id == j) ≡ false
    → Peers.get (expel s p at) j ≡ Peers.get s j
unfolding Peers.get expel remember_removal
expel-get s p at j apart = remove_first-other s.peers p.device_id j apart

get-remove_peer :
    (s : PeerStore) (id j : DeviceId) (at : ℕ) (disk : Bool)
    → (id == j) ≡ false
    → is_some (Peers.get s j) ≡ true
    → is_some (Peers.get (Peers.remove s id at disk).0 j) ≡ true
unfolding Peers.get Peers.remove
get-remove_peer s id j at disk apart h = elim (Option-cases (Peers.get s id)) [
  | inl unknown ↦ rw (Peers.remove, unknown) h
  | inr (p, there) ↦
      let same = lookup-key (λ (q : Peer). q.device_id) s.peers id p there in
      rw (Peers.remove, there)
        (ap (λ ps. is_some (find (Peers.is_peer j) ps))
            (save_then-peers (expel s p at) disk (some p))
          ∙ ap is_some (expel-get s p at j (ap (λ i. i == j) same ∙ apart))
          ∙ h)
]

enter-IsTrusted :
    (n : Node) (peer : DeviceId) (c : Conn)
    → is_some (Peers.get n.peers peer) ≡ true
    → IsTrusted n
    → IsTrusted (enter n peer c)
enter-IsTrusted n peer c known h id there = elim (Bool-cases (peer == id)) [
  | inl same ↦ subst (λ i. is_some (Peers.get n.peers i) ≡ true) ((nat_eq_iff peer id).0 same) known
  | inr other ↦ h id (ground (arith, there, other, get-insert n.conns peer c id))
]

if-IsTrusted :
    (keep : Bool) (m o : Node)
    → IsTrusted m
    → IsTrusted o
    → IsTrusted ((if◌then◌else◌ {A = Node × Bool} keep (m, false) (o, true)).0)
if-IsTrusted true m o a b = a
if-IsTrusted false m o a b = b

register-IsTrusted :
    (n : Node) (peer : DeviceId) (c : Conn) → IsTrusted n → IsTrusted (register n peer c).0
register-IsTrusted n peer c h = elim (Bool-cases (is_some (Peers.get n.peers peer))) [
  | inr stranger ↦ rw (register_stranger n peer c stranger) h
  | inl known ↦ elim (Option-cases (Map.get n.conns peer)) [
    | inl free ↦ rw (register_free n peer c known free) (enter-IsTrusted n peer c known h)
    | inr (old, taken) ↦
        subst (λ (r : Node × Bool). IsTrusted r.0) (sym (register_taken n peer old c known taken))
          (if-IsTrusted
            (old.initiator == min n.device_id peer || not (c.initiator == min n.device_id peer)) n
            (enter (send n old close) peer c) h (enter-IsTrusted (send n old close) peer c known h))
  ]
]

unregister-IsTrusted :
    (n : Node) (peer : DeviceId) (conn_id : ℕ) (now : Instant)
    → IsTrusted n
    → IsTrusted (unregister n peer conn_id now)
unfolding unregister
unregister-IsTrusted n peer conn_id now h = elim (Option-cases (Map.get n.conns peer)) [
  | inl absent ↦ rw (unregister, absent) h
  | inr (c, there) ↦ elim (Bool-cases (c.id == conn_id)) [
    | inr other ↦ rw (unregister, there, other) h
    | inl this ↦
        rw (unregister, there, this)
          (λ id left. h id (ground (arith, left, get-remove n.conns peer id)))
  ]
]

leave_group-IsTrusted :
    (n : Node) (by : DeviceId) (disk : Bool) → IsTrusted n → IsTrusted (leave_group n by disk)
unfolding leave_group
leave_group-IsTrusted n by disk h = elim (Option-cases (Peers.get n.peers by)) [
  | inl stranger ↦ rw (leave_group, stranger) h
  | inr (p, there) ↦ rw (leave_group, there) (λ id c. absurd (ground (arith, c)))
]

-- What changes who is connected or paired: a new connection, the end of one, the removal of a peer, the
-- roster of one when it can be saved, and the removal of this device.
pub data Step : Type 0 where
  registers : DeviceId → Conn → Step
  unregisters : DeviceId → ℕ → Instant → Step
  removes : DeviceId → ℕ → Bool → Step
  applies : DeviceId → Roster → Step
  leaves : DeviceId → Bool → Step

module _ (to_stdvec : Message → Result (List ℕ)) where
  follow-IsTrusted :
      (n : Node) (c : RosterChange)
      → ((id : DeviceId)
          → connected n id ≡ true
          → (is_some (Peers.get n.peers id) || contains c.removed id) ≡ true)
      → IsTrusted (follow to_stdvec n c)
  unfolding follow send_roster_to_all
  follow-IsTrusted n c h = elim (Bool-cases (is_empty c)) [
    | inl nothing ↦ rw nothing (λ id there. ground (arith, h id there, empty-removed c id nothing))
    | inr news ↦
        let ended = disconnect_all to_stdvec n c.removed in
        let dialed = redial_all ended c.added in
        rw news (
          IsTrusted-same dialed (emit (send_roster_to_all to_stdvec dialed) peers_changed)
            (send_some-conns dialed (roster_message to_stdvec dialed))
            (send_some-peers dialed (roster_message to_stdvec dialed))
            (λ id there.
              let (before, kept) =
                disconnect_all-get to_stdvec c.removed n id
                  (redial_all-get c.added ended id there) in
              ap (λ s. is_some (Peers.get s id))
                (redial_all-peers c.added ended ∙ disconnect_all-peers to_stdvec c.removed n)
              ∙ ground (arith, h id before, kept)))
  ]

  apply_roster-IsTrusted :
      (n : Node) (from : DeviceId) (news : Roster)
      → IsTrusted n
      → IsTrusted (apply_roster to_stdvec n from news true)
  unfolding apply_roster Peers.get
  apply_roster-IsTrusted n from news h =
      let (peers, done) = merge-saved n.device_id from n.peers news in
      let n' : Node = record n { peers = (merge n.device_id from n.peers news true).0 } in
      rw (apply_roster, done)
        (follow-IsTrusted n' (change_of n.device_id from (merged n.device_id from n.peers news))
          (λ id there.
            ap
              (λ ps.
                is_some (find (Peers.is_peer id) ps)
                || contains (merged n.device_id from n.peers news).removed id)
              peers
            ∙ merged-accounted n.device_id from n.peers news id (h id there)))

  removed-IsTrusted :
      (n : Node) (id : DeviceId) (at : ℕ) (disk : Bool)
      → IsTrusted n
      → IsTrusted (record (disconnect_removed to_stdvec n id) {
        peers = (Peers.remove (disconnect_removed to_stdvec n id).peers id at disk).0;
      })
  removed-IsTrusted n id at disk h j there =
      let (before, apart) = disconnect_removed-get to_stdvec n id j there in
      get-remove_peer (disconnect_removed to_stdvec n id).peers id j at disk apart
        (ap (λ s. is_some (Peers.get s j)) (disconnect_removed-peers to_stdvec n id) ∙ h j before)

  remove_peer-IsTrusted :
      (n : Node) (id : DeviceId) (at : ℕ) (disk : Bool)
      → IsTrusted n
      → IsTrusted (remove_peer to_stdvec n id at disk).0
  unfolding remove_peer send_roster_to_all
  remove_peer-IsTrusted n id at disk h =
      let gone = disconnect_removed to_stdvec n id in
      let n' : Node = record gone { peers = (Peers.remove gone.peers id at disk).0 } in
      let trusted : IsTrusted n' = removed-IsTrusted n id at disk h in
      elim (Result-cases (Peers.remove gone.peers id at disk).1) [
        | inr (e, unsaved) ↦ rw (remove_peer, unsaved) trusted
        | inl (p, saved) ↦
            rw (remove_peer, saved)
              (IsTrusted-same n' (emit (send_roster_to_all to_stdvec n') peers_changed)
                (send_some-conns n' (roster_message to_stdvec n'))
                (send_some-peers n' (roster_message to_stdvec n')) trusted)
      ]

  unfoldable pub step : Node → Step → Node
  step n (registers peer c) = (register n peer c).0
  step n (unregisters peer conn_id now) = unregister n peer conn_id now
  step n (removes id at disk) = (remove_peer to_stdvec n id at disk).0
  step n (applies from news) = apply_roster to_stdvec n from news true
  step n (leaves by disk) = leave_group n by disk

  -- Only paired devices are connected: this holds after each step if it held before, where a step is a
  -- new connection, the end of one, the removal of a peer, the roster of one whose changes are saved, or
  -- the removal of this device from the group.
  pub step-IsTrusted : (n : Node) (s : Step) → IsTrusted n → IsTrusted (step n s)
  unfolding step
  step-IsTrusted n (registers peer c) h = register-IsTrusted n peer c h
  step-IsTrusted n (unregisters peer conn_id now) h = unregister-IsTrusted n peer conn_id now h
  step-IsTrusted n (removes id at disk) h = remove_peer-IsTrusted n id at disk h
  step-IsTrusted n (applies from news) h = apply_roster-IsTrusted n from news h
  step-IsTrusted n (leaves by disk) h = leave_group-IsTrusted n by disk h
