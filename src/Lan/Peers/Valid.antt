-- ===== src/Lan/Peers/Valid.antt =====
-- The invariant of the store, and that every operation keeps it.
use cled.Common.{
  Bool, Bool-cases, List, Option-cases, [], arith, false, if◌then◌else◌, inl, inr, is_some, length,
  length-append, length-retain-le, ltb, nat_eq, none, not, refl, remove_first, retain, some, true,
  update_first, ℕ, ◌&&◌, ◌++◌, ◌+◌, ◌-◌, ◌==◌, ◌∙◌, ◌∷◌, ◌≡◌, ◌≤◌,
}
use cled.Common.Keyed.{
  lookup_cong, lookup, Unique, lookup-retain, lookup-append, lookup-remove_first, Unique-append,
  Unique-retain, Unique-update_first, Unique-remove_first, is_some-update_first,
}
use cled.Lan.Peers.{
  Peer, Removed, PeerStore, max_removed, is_peer, is_removed, get, save, upsert, tail,
  remember_removal, removal, expel, save_then, remove, clear,
}

abbrev pub peer_key : Peer → ℕ
peer_key p = p.device_id

abbrev pub removed_key : Removed → ℕ
removed_key r = r.peer.device_id

-- No device stands twice in a list or in both lists, and at most 100 removals are remembered.
pub record IsValid (s : PeerStore) : Type 0 where
  pub peers : Unique peer_key s.peers
  pub removed : Unique removed_key s.removed
  pub apart :
      (id : ℕ)
      → (is_some (lookup peer_key s.peers id) && is_some (lookup removed_key s.removed id)) ≡ false
  pub bounded : length s.removed ≤ max_removed

pub save-IsValid : (s : PeerStore) (disk : Bool) → IsValid s → IsValid (save s disk).0
unfolding save
save-IsValid s true v = record {
  peers = v.peers;
  removed = v.removed;
  apart = v.apart;
  bounded = v.bounded;
}
save-IsValid s false v = v

pub upsert-IsValid :
    (s : PeerStore) (peer : Peer) (disk : Bool) → IsValid s → IsValid (upsert s peer disk).0
unfolding upsert
upsert-IsValid s peer disk v = save-IsValid _ disk (record {
  peers =
      Unique-append peer_key _ peer (Unique-retain peer_key _ s.peers v.peers)
        (lookup-retain peer_key s.peers peer.device_id peer.device_id ∙ ground arith);
  removed = Unique-retain removed_key _ s.removed v.removed;
  apart = λ id. ground (
    arith,
    v.apart id,
    lookup-retain removed_key s.removed peer.device_id id,
    lookup-append peer_key (retain (λ p. not (is_peer peer.device_id p)) s.peers) (peer ∷ []) id,
    lookup-retain peer_key s.peers peer.device_id id,
  );
  bounded =
      omega (arith, v.bounded, length-retain-le (λ r. not (is_removed peer.device_id r)) s.removed);
})

lookup-tail-none :
    (xs : List Removed) (k : ℕ)
    → lookup removed_key xs k ≡ none
    → lookup removed_key (tail xs) k ≡ none
lookup-tail-none [] k h = refl
lookup-tail-none (x ∷ xs) k h = ground arith

Unique-tail : (xs : List Removed) → Unique removed_key xs → Unique removed_key (tail xs)
Unique-tail [] u = tt
Unique-tail (x ∷ xs) u = u.1

length-tail : (xs : List Removed) → length (tail xs) ≡ length xs - 1
length-tail [] = omega arith
length-tail (x ∷ xs) = omega arith

-- The removals with one put at the end, in place of an older one of its device.
abbrev pub kept : Removed → List Removed → List Removed
kept r xs = retain (λ x. not (is_removed r.peer.device_id x)) xs ++ r ∷ []

pub lookup-kept :
    (r : Removed) (xs : List Removed) (k : ℕ)
    → lookup removed_key (kept r xs) k
      ≡ (if removed_key r == k then some r else lookup removed_key xs k)
lookup-kept r xs k =
    lookup-append removed_key (retain (λ x. not (is_removed r.peer.device_id x)) xs) (r ∷ []) k
    ∙ ground (arith, lookup-retain removed_key xs r.peer.device_id k)

Unique-kept :
    (r : Removed) (xs : List Removed) → Unique removed_key xs → Unique removed_key (kept r xs)
Unique-kept r xs u =
    Unique-append removed_key _ r (Unique-retain removed_key _ xs u)
      (lookup-retain removed_key xs r.peer.device_id r.peer.device_id ∙ ground arith)

pub length-kept-le : (r : Removed) (xs : List Removed) → length (kept r xs) ≤ length xs + 1
length-kept-le r xs = omega (
  arith,
  length-append (retain (λ x. not (is_removed r.peer.device_id x)) xs) (r ∷ []),
  length-retain-le (λ x. not (is_removed r.peer.device_id x)) xs,
)

kept-apart :
    (s : PeerStore) (r : Removed)
    → lookup peer_key s.peers (removed_key r) ≡ none
    → IsValid s
    → (id : ℕ)
    → (is_some (lookup peer_key s.peers id) && is_some (lookup removed_key (kept r s.removed) id))
      ≡ false
kept-apart s r gone v id = ground (
  arith,
  v.apart id,
  lookup-kept r s.removed id,
  gone,
  lookup_cong peer_key s.peers (removed_key r) id,
)

-- A removal of a device that is not paired.
pub remember_removal-IsValid :
    (s : PeerStore) (r : Removed)
    → lookup peer_key s.peers (removed_key r) ≡ none
    → IsValid s
    → IsValid (remember_removal s r)
unfolding remember_removal
remember_removal-IsValid s r gone v =
    elim (Bool-cases (ltb max_removed (length (kept r s.removed)))) [
      | inl over ↦
          rw (over, remember_removal)
            (record {
              peers = v.peers;
              removed = Unique-tail _ (Unique-kept r s.removed v.removed);
              apart = λ id.
                  ground (arith, kept-apart s r gone v id, lookup-tail-none (kept r s.removed) id);
              bounded =
                  omega
                    (arith, length-tail (kept r s.removed), length-kept-le r s.removed, v.bounded);
            })
      | inr room ↦
          rw (room, remember_removal)
            (record {
              peers = v.peers;
              removed = Unique-kept r s.removed v.removed;
              apart = kept-apart s r gone v;
              bounded = ground arith;
            })
    ]

without-IsValid :
    (s : PeerStore) (id : ℕ)
    → IsValid s
    → IsValid (record s { peers = remove_first (is_peer id) s.peers })
without-IsValid s id v = record {
  peers = Unique-remove_first peer_key s.peers id v.peers;
  removed = v.removed;
  apart = λ j. ground (arith, v.apart j, lookup-remove_first peer_key s.peers id j v.peers);
  bounded = v.bounded;
}

pub expel-IsValid : (s : PeerStore) (peer : Peer) (at : ℕ) → IsValid s → IsValid (expel s peer at)
unfolding expel
expel-IsValid s peer at v =
    remember_removal-IsValid _ (removal peer at)
      (lookup-remove_first peer_key s.peers peer.device_id peer.device_id v.peers ∙ ground arith)
      (without-IsValid s peer.device_id v)

pub save_then-IsValid {ℓ} :
    {A : Type ℓ} (s : PeerStore) (disk : Bool) (a : A)
    → IsValid s
    → IsValid (save_then (save s disk) a).0
unfolding save
save_then-IsValid s true a v = save-IsValid s true v
save_then-IsValid s false a v = v

pub remove-IsValid :
    (s : PeerStore) (id at : ℕ) (disk : Bool) → IsValid s → IsValid (remove s id at disk).0
unfolding remove
remove-IsValid s id at disk v = elim (Option-cases (get s id)) [
  | inl e ↦ rw (e, remove) v
  | inr (p, e) ↦
      rw (e, remove) (save_then-IsValid (expel s p at) disk (some p) (expel-IsValid s p at v))
]

pub clear-IsValid : (s : PeerStore) (disk : Bool) → IsValid s → IsValid (clear s disk).0
unfolding clear
clear-IsValid s disk v =
    save-IsValid _ disk
      (record { peers = tt; removed = v.removed; apart = λ id. refl; bounded = v.bounded })

-- A change of a peer that keeps its device.
pub update-IsValid :
    (s : PeerStore) (p : Peer → Bool) (f : Peer → Peer)
    (same : (x : Peer) → peer_key (f x) ≡ peer_key x)
    → IsValid s
    → IsValid (record s { peers = update_first p f s.peers })
update-IsValid s p f same v = record {
  peers = Unique-update_first peer_key p f same s.peers v.peers;
  removed = v.removed;
  apart = λ j. ground (arith, v.apart j, is_some-update_first peer_key p f same s.peers j);
  bounded = v.bounded;
}
