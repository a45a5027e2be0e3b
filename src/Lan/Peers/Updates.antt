-- ===== src/Lan/Peers/Updates.antt =====
-- The invariant under `seen` and `mark_notified`, which change an entry in place.
use cled.Common.{
  Bool, Bool-cases, List, Option, Option-cases, [], any, arith, inl, inr, length, list_eq, nat_eq,
  option_eq, refl, true, update_first, ℕ, ◌&&◌, ◌==◌, ◌∷◌, ◌≡◌,
}
use cled.Common.Keyed.{Unique-update_first, is_some-update_first}
use cled.Clipboard.Content.{Chars}
use cled.Lan.Addr.{SocketAddr, addr_eq}
use cled.Lan.Peers.{Removed, PeerStore, is_peer, unnotified, get, seen, mark_notified, or_else}
use cled.Lan.Peers.Valid.{IsValid, removed_key, save-IsValid, update-IsValid}

pub seen-IsValid :
    (s : PeerStore) (id : ℕ) (name : Chars) (address : Option SocketAddr) (disk : Bool)
    → IsValid s
    → IsValid (seen s id name address disk).0
unfolding seen
seen-IsValid s id name address disk v = elim (Option-cases (get s id)) [
  | inl e ↦ rw (e, seen) v
  | inr (p, e) ↦
      elim (Bool-cases (p.name == name && p.last_address == or_else address p.last_address)) [
        | inl same ↦ rw (e, same, seen) v
        | inr differs ↦
            rw (e, differs, seen)
              (save-IsValid _ disk (
                update-IsValid s (is_peer id)
                  (λ x. record x { name = name; last_address = or_else address p.last_address })
                  (λ x. refl) v))
      ]
]

length-update_first {ℓ} :
    {A : Type ℓ} (p : A → Bool) (f : A → A) (xs : List A) → length (update_first p f xs) ≡ length xs
length-update_first p f [] = refl
length-update_first p f (x ∷ xs) = ground (arith, length-update_first p f xs)

abbrev notify : Removed → Removed
notify r = record r { notified = true }

notified-IsValid :
    (s : PeerStore) (id : ℕ)
    → IsValid s
    → IsValid (record s { removed = update_first (unnotified id) notify s.removed })
notified-IsValid s id v = record {
  peers = v.peers;
  removed = Unique-update_first removed_key (unnotified id) notify (λ x. refl) s.removed v.removed;
  apart = λ j. ground (
    arith,
    v.apart j,
    is_some-update_first removed_key (unnotified id) notify (λ x. refl) s.removed j,
  );
  bounded = omega (arith, v.bounded, length-update_first (unnotified id) notify s.removed);
}

pub mark_notified-IsValid :
    (s : PeerStore) (id : ℕ) (disk : Bool) → IsValid s → IsValid (mark_notified s id disk).0
unfolding mark_notified
mark_notified-IsValid s id disk v = elim (Bool-cases (any (unnotified id) s.removed)) [
  | inl there ↦ rw (there, mark_notified) (save-IsValid _ disk (notified-IsValid s id v))
  | inr absent ↦ rw (absent, mark_notified) v
]
