-- ===== src/Lan/Peers.antt =====
-- crates/cled-lan/src/peers.rs: the paired devices and the removed ones. Whether a save reaches
-- the disk is an argument; `file` is what the disk holds.
pub mod Valid
pub mod Updates
pub mod File
use cled.Common.{
  Bool, List, Option, [], any, false, find, if◌then◌else◌, length, list_eq, ltb, map, nat_eq, none,
  not, option_eq, remove_first, retain, some, take, true, update_first, ℕ, ◌&&◌, ◌++◌, ◌==◌, ◌∷◌,
}
use cled.Clipboard.Content.{Chars}
use cled.Sync.Item.{DeviceId}
use cled.Lan.Error.{Result, ok, err, io}
use cled.Lan.Addr.{addr_eq, SocketAddr, v4, v6}
use cled.Lan.Wire.{RosterPeer, Roster}

pub record Peer : Type 0 where
  pub device_id : DeviceId
  pub name : Chars
  pub public_key : ℕ
  pub paired_at_ms : ℕ
  pub last_address : Option SocketAddr

pub record Removed : Type 0 where
  pub peer : Peer
  pub removed_at_ms : ℕ
  pub notified : Bool

pub record RosterChange : Type 0 where
  pub added : List DeviceId
  pub removed : List DeviceId
  pub removals_learned : Bool

abbrev pub is_nil {ℓ} : {A : Type ℓ} → List A → Bool
is_nil [] = true
is_nil (x ∷ xs) = false

-- `RosterChange::is_empty`.
unfoldable pub is_empty : RosterChange → Bool
is_empty c = is_nil c.added && (is_nil c.removed && not c.removals_learned)

pub record PeerStore : Type 0 where
  pub peers : List Peer
  pub removed : List Removed
  pub file : Option (List Peer × List Removed)

abbrev pub max_removed : ℕ
max_removed = 100

abbrev pub max_roster_entries : ℕ
max_roster_entries = 256

abbrev max_name_chars : ℕ
max_name_chars = 64

abbrev pub is_peer : DeviceId → Peer → Bool
is_peer id p = p.device_id == id

abbrev pub is_removed : DeviceId → Removed → Bool
is_removed id r = r.peer.device_id == id

abbrev pub unnotified : DeviceId → Removed → Bool
unnotified id r = r.peer.device_id == id && not r.notified

unfoldable pub get : PeerStore → DeviceId → Option Peer
get s id = find (is_peer id) s.peers

unfoldable pub get_removed : PeerStore → DeviceId → Option Peer
get_removed s id = elim (find (unnotified id) s.removed) [ none ↦ none | some r ↦ some r.peer ]

-- `save`, which writes both lists or fails.
unfoldable pub save : PeerStore → Bool → PeerStore × Result (Unit {0})
save s true = (record s { file = some (s.peers, s.removed) }, ok tt)
save s false = (s, err io)

unfoldable pub upsert : PeerStore → Peer → Bool → PeerStore × Result (Unit {0})
upsert s peer disk =
    save
      (record s {
        peers = retain (λ p. not (is_peer peer.device_id p)) s.peers ++ peer ∷ [];
        removed = retain (λ r. not (is_removed peer.device_id r)) s.removed;
      })
      disk

abbrev pub or_else {ℓ} : {A : Type ℓ} → Option A → Option A → Option A
or_else none b = b
or_else (some a) b = some a

unfoldable pub seen :
    PeerStore → DeviceId → Chars → Option SocketAddr → Bool → PeerStore × Result (Unit {0})
seen s id name address disk = elim (get s id) [
  | none ↦ (s, ok tt)
  | some peer ↦
      let address' = or_else address peer.last_address in
      if peer.name == name && peer.last_address == address'
      then (s, ok tt)
      else save
          (record s {
            peers =
                update_first (is_peer id) (λ p. record p { name = name; last_address = address' })
                  s.peers;
          })
          disk
]

-- `remove(0)` of a list that may be empty.
abbrev pub tail {ℓ} : {A : Type ℓ} → List A → List A
tail [] = []
tail (x ∷ xs) = xs

unfoldable pub remember_removal : PeerStore → Removed → PeerStore
remember_removal s r =
    let kept = retain (λ x. not (is_removed r.peer.device_id x)) s.removed ++ r ∷ [] in
    record s { removed = if ltb max_removed (length kept) then tail kept else kept }

abbrev pub removal : Peer → ℕ → Removed
removal peer at = record { peer = peer; removed_at_ms = at; notified = false }

-- `peers.remove(index)` and `remember_removal` of what it took out.
unfoldable pub expel : PeerStore → Peer → ℕ → PeerStore
expel s peer at =
    remember_removal (record s { peers = remove_first (is_peer peer.device_id) s.peers })
      (removal peer at)

-- `save()?; Ok(a)`.
abbrev pub save_then {ℓ} : {A : Type ℓ} → PeerStore × Result (Unit {0}) → A → PeerStore × Result A
save_then (s, ok _) a = (s, ok a)
save_then (s, err e) a = (s, err e)

unfoldable pub remove : PeerStore → DeviceId → ℕ → Bool → PeerStore × Result (Option Peer)
remove s id at disk = elim (get s id) [
  | none ↦ (s, ok none)
  | some peer ↦ save_then (save (expel s peer at) disk) (some peer)
]

unfoldable pub clear : PeerStore → Bool → PeerStore × Result (Unit {0})
clear s disk = save (record s { peers = [] }) disk

unfoldable pub mark_notified : PeerStore → DeviceId → Bool → PeerStore × Result (Unit {0})
mark_notified s id disk =
    if any (unnotified id) s.removed
    then save
        (record s {
          removed = update_first (unnotified id) (λ r. record r { notified = true }) s.removed;
        })
        disk
    else (s, ok tt)

-- Scoped IPv6 addresses are not shared.
abbrev shareable : Option SocketAddr → Option SocketAddr
shareable none = none
shareable (some (v4 ip port)) = some (v4 ip port)
shareable (some (v6 ip port flowinfo scope_id)) =
    if scope_id == 0 then some (v6 ip port flowinfo scope_id) else none

unfoldable pub to_roster : Peer → RosterPeer
to_roster p = record {
  device_id = p.device_id;
  name = p.name;
  public_key = p.public_key;
  paired_at_ms = p.paired_at_ms;
  address = shareable p.last_address;
}

-- No device has the key of zeros; names are shortened.
unfoldable pub from_roster : RosterPeer → Option Peer
from_roster r =
    if r.public_key == 0
    then none
    else some (record {
      device_id = r.device_id;
      name = take max_name_chars r.name;
      public_key = r.public_key;
      paired_at_ms = r.paired_at_ms;
      last_address = r.address;
    })

unfoldable pub roster : PeerStore → Roster
roster s = record {
  members = map to_roster s.peers;
  removed =
      map (λ r. record { peer = to_roster r.peer; removed_at_ms = r.removed_at_ms }) s.removed;
}
