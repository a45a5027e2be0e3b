-- ===== src/Lan/Peers/File.antt =====
-- The file of crates/cled-lan/src/peers.rs: its records, and loading what was saved. A key is the number that
-- its bytes spell. The crate serde_json is a parameter, and so is the text form of a device id.
pub mod Reload
use cled.Common.{Bool, List, Option, [], map, nat_eq, none, some, ℕ, ◌∷◌}
use cled.Common.Bytes.{to_be_bytes, from_be_bytes}
use cled.Common.Utf8.{as_bytes}
use cled.Clipboard.Content.{Chars}
use cled.Sync.Item.Text.{UuidText, parse_id}
use cled.Lan.Addr.{SocketAddr}
use cled.Lan.Error.{Result, ok, err, io, other}
use cled.Lan.Keys.{key_len, hex, from_hex, to_key}
use cled.Lan.Peers.{Peer, Removed, PeerStore}

pub record PeerRecord : Type 0 where
  pub device_id : Chars
  pub name : Chars
  pub public_key : Chars
  pub paired_at_ms : ℕ
  pub last_address : Option SocketAddr

pub record RemovedRecord : Type 0 where
  pub peer : PeerRecord
  pub removed_at_ms : ℕ
  pub notified : Bool

pub record PeerFile : Type 0 where
  pub version : ℕ
  pub peers : List PeerRecord
  pub removed : List RemovedRecord

-- `collect::<Option<_>>` of what a function makes of the entries.
abbrev cons_some {ℓ} : {A : Type ℓ} → Option A → Option (List A) → Option (List A)
cons_some (some a) (some as') = some (a ∷ as')
cons_some _ _ = none

abbrev pub collect {ℓ κ} : {A : Type ℓ} {B : Type κ} → (A → Option B) → List A → Option (List B)
collect f [] = some []
collect f (a ∷ rest) = cons_some (f a) (collect f rest)

-- `to_key(&from_hex(…)?).ok()?`.
abbrev pub key_of : Result (List ℕ) → Option ℕ
key_of (ok bytes) = some (from_be_bytes bytes)
key_of (err e) = none

unfoldable pub read_key : Chars → Option ℕ
read_key text = elim (from_hex (as_bytes text)) [ none ↦ none | some bytes ↦ key_of (to_key bytes) ]

module _ (u : UuidText) where
  unfoldable pub to_record : Peer → PeerRecord
  to_record p = record {
    device_id = u.display p.device_id;
    name = p.name;
    public_key = hex (to_be_bytes key_len p.public_key);
    paired_at_ms = p.paired_at_ms;
    last_address = p.last_address;
  }

  -- A peer of a record whose id and key are read.
  unfoldable pub peer_of : PeerRecord → Option ℕ → Option ℕ → Option Peer
  peer_of r (some id) (some key) = some (record {
    device_id = id;
    name = r.name;
    public_key = key;
    paired_at_ms = r.paired_at_ms;
    last_address = r.last_address;
  })
  peer_of r _ _ = none

  unfoldable pub from_record : PeerRecord → Option Peer
  from_record r = peer_of r (parse_id u r.device_id) (read_key r.public_key)

  unfoldable pub to_removed : Removed → RemovedRecord
  to_removed r = record {
    peer = to_record r.peer;
    removed_at_ms = r.removed_at_ms;
    notified = r.notified;
  }

  abbrev pub removed_of : RemovedRecord → Option Peer → Option Removed
  removed_of r none = none
  removed_of r (some peer) =
      some (record { peer = peer; removed_at_ms = r.removed_at_ms; notified = r.notified })

  unfoldable pub from_removed : RemovedRecord → Option Removed
  from_removed r = removed_of r (from_record r.peer)

  -- The file that `save` writes.
  unfoldable pub file_of : List Peer → List Removed → PeerFile
  file_of peers removed = record {
    version = 1;
    peers = map to_record peers;
    removed = map to_removed removed;
  }

  abbrev pub both {ℓ κ} : {A : Type ℓ} {B : Type κ} → Option A → Option B → Option (A × B)
  both (some a) (some b) = some (a, b)
  both _ _ = none

  unfoldable pub lists_of : PeerFile → Option (List Peer × List Removed)
  lists_of file = both (collect from_record file.peers) (collect from_removed file.removed)

  -- `parse`, where `from_slice` fills in what is missing in the file.
  unfoldable pub parse : (List ℕ → Option PeerFile) → List ℕ → Option (List Peer × List Removed)
  parse from_slice bytes = elim (from_slice bytes) [ none ↦ none | some file ↦ lists_of file ]

-- What reading the file gives.
pub data PeersRead : Type 0 where
  contents : List ℕ → PeersRead
  not_found unreadable : PeersRead

abbrev or_empty : Option (List Peer × List Removed) → List Peer × List Removed
or_empty none = ([], [])
or_empty (some lists) = lists

-- The store with the lists that the file holds, if it does.
abbrev pub loaded : Option (List Peer × List Removed) → PeerStore
loaded lists = record { peers = (or_empty lists).0; removed = (or_empty lists).1; file = lists }

-- `PeerStore::load`. A malformed file is as good as none.
unfoldable pub load : UuidText → (List ℕ → Option PeerFile) → PeersRead → Result PeerStore
load u from_slice (contents bytes) = ok (loaded (parse u from_slice bytes))
load u from_slice not_found = ok (loaded none)
load u from_slice unreadable = err io

-- The bytes that `save` writes.
unfoldable pub saved_bytes :
    UuidText → (PeerFile → Option (List ℕ)) → List Peer → List Removed → Result (List ℕ)
saved_bytes u to_vec peers removed = elim (to_vec (file_of u peers removed)) [
  | none ↦ err other
  | some bytes ↦ ok bytes
]
