-- ===== src/Lan/Discovery.antt =====
-- crates/cled-lan/src/discovery.rs: the table of devices found on the network. The crate mdns-sd sends the
-- events; a `HashMap` lists its values in the order of the table here.
pub mod Hidden
use cled.Common.{
  Bool, Eq, List, Option, [], arith, contains, false, if◌then◌else◌, list_eq, map, nat_eq, none,
  not, option_eq, some, true, ℕ, ◌&&◌, ◌++◌, ◌==◌, ◌||◌, ◌↔◌, ◌∷◌, ◌≡◌,
}
use cled.Common.Map
use cled.Clipboard.Content.{Chars}
use cled.Sync.Item.{DeviceId}
use cled.Sync.Item.Text.{UuidText, parse_id}
use cled.Lan.Addr.{SocketAddr, v4, v6, rank_with}
use cled.Lan.Node.{Node}
use cled.Lan.Node.Dialing.{on_discovered}

-- An address of an announcement: the number of its bytes, with the scope of one of IPv6.
pub data ScopedIp : Type 0 where
  ip_v4 : (ip : ℕ) → ScopedIp
  ip_v6 : (ip scope : ℕ) → ScopedIp

abbrev ip_beq : ScopedIp → ScopedIp → Bool
ip_beq (ip_v4 i) (ip_v4 j) = i == j
ip_beq (ip_v6 i s) (ip_v6 j t) = i == j && s == t
ip_beq _ _ = false

pub ip_eq_iff : (a b : ScopedIp) → (ip_beq a b ≡ true) ↔ (a ≡ b)
ip_eq_iff (ip_v4 i) (ip_v4 j) = ground arith
ip_eq_iff (ip_v4 i) (ip_v6 j t) = ground arith
ip_eq_iff (ip_v6 i s) (ip_v4 j) = ground arith
ip_eq_iff (ip_v6 i s) (ip_v6 j t) = ground arith

instance abbrev pub ip_eq : Eq ScopedIp
ip_eq = record { eq = ip_beq; eq_iff = ip_eq_iff }

pub record Found : Type 0 where
  pub device_id : DeviceId
  pub port : ℕ
  pub ips : List ScopedIp
  pub pairing_name : Option Chars

pub record PairableDevice : Type 0 where
  pub device_id : DeviceId
  pub name : Chars
  pub address : SocketAddr

-- The devices by the full name of their announcement, and the name that this one announces while it shows
-- a pairing code.
pub record Discovery : Type 0 where
  pub device_id : DeviceId
  pub port : ℕ
  pub found : List (Chars × Found)

-- An announcement that was resolved; the properties are those of the same names.
pub record Service : Type 0 where
  pub fullname : Chars
  pub port : ℕ
  pub addresses : List ScopedIp
  pub id : Option Chars
  pub pair : Option Chars
  pub name : Option Chars

pub data ServiceEvent : Type 0 where
  resolved : Service → ServiceEvent
  removed : (fullname : Chars) → ServiceEvent
  -- The other events.
  unrelated : ServiceEvent

-- What is announced.
unfoldable advertise : UuidText → Discovery → Option Chars → Service
advertise u d pairing_name = record {
  fullname = u.display d.device_id;
  port = d.port;
  addresses = [];
  id = some (u.display d.device_id);
  pair = elim pairing_name [ none ↦ none | some name ↦ some (b'1' ∷ []) ];
  name = pairing_name;
}

abbrev at_port : ℕ → ScopedIp → SocketAddr
at_port port (ip_v4 ip) = v4 ip port
at_port port (ip_v6 ip scope) = v6 ip port 0 scope

-- The interfaces of this machine are an argument, as they are of `rank_with`.
module _ (local : List (ℕ × ℕ)) where
  -- `Found::addresses`.
  unfoldable pub addresses : Found → List SocketAddr
  addresses f = rank_with (map (at_port f.port) f.ips) local

  unfoldable pub addresses_of : List (Chars × Found) → DeviceId → List SocketAddr
  addresses_of [] device = []
  addresses_of ((name, f) ∷ found) device =
      let rest = addresses_of found device in
      if f.device_id == device then addresses f ++ rest else rest

  abbrev first_of : List SocketAddr → Option SocketAddr
  first_of [] = none
  first_of (a ∷ as') = some a

  abbrev pairable_as : DeviceId → Option Chars → Option SocketAddr → Option PairableDevice
  pairable_as device (some name) (some address) =
      some (record { device_id = device; name = name; address = address })
  pairable_as device _ _ = none

  abbrev pub cons_if_some {ℓ} : {A : Type ℓ} → Option A → List A → List A
  cons_if_some none rest = rest
  cons_if_some (some a) rest = a ∷ rest

  unfoldable pub pairable : List (Chars × Found) → DeviceId → List PairableDevice
  pairable [] me = []
  pairable ((name, f) ∷ found) me =
      let rest = pairable found me in
      if not (f.device_id == me)
      then cons_if_some (pairable_as f.device_id f.pairing_name (first_of (addresses f))) rest
      else rest

abbrev pub add_ip : List ScopedIp → ScopedIp → List ScopedIp
add_ip ips ip = if contains ips ip then ips else ips ++ ip ∷ []

abbrev pub add_ips : List ScopedIp → List ScopedIp → List ScopedIp
add_ips ips [] = ips
add_ips ips (ip ∷ more) = add_ips (add_ip ips ip) more

-- The addresses that an entry keeps: none if the device has restarted on another port, or the name was
-- reused.
abbrev pub kept_ips : Option Found → DeviceId → ℕ → List ScopedIp
kept_ips none device port = []
kept_ips (some f) device port =
    if not (f.port == port) || not (f.device_id == device) then [] else f.ips

abbrev shown_name : Service → Option Chars
shown_name s = if s.pair == some (b'1' ∷ []) then s.name else none

-- The entry after an announcement of another device.
unfoldable pub updated : Option Found → DeviceId → Service → Found
updated old device s = record {
  device_id = device;
  port = s.port;
  ips = add_ips (kept_ips old device s.port) s.addresses;
  pairing_name = shown_name s;
}

abbrev id_of : UuidText → Option Chars → Option DeviceId
id_of u none = none
id_of u (some text) = parse_id u text

module _ (u : UuidText) where
  unfoldable pub on_device : Discovery → Node → Service → Option DeviceId → Discovery × Node
  on_device d n s none = (d, n)
  on_device d n s (some device) = if device == d.device_id then (d, n) else (
    record d {
      found = Map.insert d.found s.fullname (updated (Map.get d.found s.fullname) device s);
    },
    on_discovered n device,
  )

  -- One turn of the loop of `run`, with the node that it tells.
  unfoldable pub on_event : Discovery → Node → ServiceEvent → Discovery × Node
  on_event d n (resolved s) = on_device d n s (id_of u s.id)
  on_event d n (removed fullname) = (record d { found = Map.remove d.found fullname }, n)
  on_event d n unrelated = (d, n)

  unfoldable pub on_events : Discovery → Node → List ServiceEvent → Discovery × Node
  on_events d n [] = (d, n)
  on_events d n (e ∷ es) = let (d', n') = on_event d n e in on_events d' n' es
