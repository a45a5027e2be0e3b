-- ===== src/Lan/Discovery/Hidden.antt =====
-- What crates/cled-lan/src/discovery.rs keeps of the network.
use cled.Common.{
  Bool-cases, Distinct, List, Option, [], arith, contains, contains-snoc, eq_comm, false, inl, inr,
  list_eq, nat_eq, none, not, refl, some, subst, sym, ||-eq-false, ℕ, ◌++◌, ◌==◌, ◌||◌, ◌∙◌, ◌∷◌,
  ◌≡◌,
}
use cled.Common.Map
use cled.Clipboard.Content.{Chars}
use cled.Sync.Item.{DeviceId}
use cled.Sync.Item.Text.{UuidText}
use cled.Lan.Node.{Node}
use cled.Lan.Discovery.{
  ScopedIp, ip_eq, Found, Discovery, Service, ServiceEvent, resolved, removed, unrelated, add_ip,
  add_ips, kept_ips, updated, on_device, on_event, on_events,
}

-- An entry that is not of this device and repeats no address.
abbrev IsGood : DeviceId → Found → Type 0
IsGood me f = ((f.device_id == me) ≡ false) × Distinct f.ips

abbrev AreGood : DeviceId → List (Chars × Found) → Type 0
AreGood me [] = Unit {0}
AreGood me (e ∷ found) = IsGood me e.1 × AreGood me found

Distinct-snoc :
    (ips : List ScopedIp) (ip : ScopedIp)
    → Distinct ips
    → contains ips ip ≡ false
    → Distinct (ips ++ ip ∷ [])
Distinct-snoc [] ip d c = (refl, tt)
Distinct-snoc (x ∷ ips) ip d c =
    let (apart, rest) = ||-eq-false (x == ip) (contains ips ip) c in
    (
      contains-snoc ips ip x ∙ ground (arith, d.0, eq_comm ip x, apart),
      Distinct-snoc ips ip d.1 rest,
    )

add_ip-Distinct : (ips : List ScopedIp) (ip : ScopedIp) → Distinct ips → Distinct (add_ip ips ip)
add_ip-Distinct ips ip d = elim (Bool-cases (contains ips ip)) [
  | inl known ↦ rw known d
  | inr new ↦ rw new (Distinct-snoc ips ip d new)
]

add_ips-Distinct : (ips more : List ScopedIp) → Distinct ips → Distinct (add_ips ips more)
add_ips-Distinct ips [] d = d
add_ips-Distinct ips (ip ∷ more) d =
    add_ips-Distinct (add_ip ips ip) more (add_ip-Distinct ips ip d)

remove-AreGood :
    (me : DeviceId) (found : List (Chars × Found)) (name : Chars)
    → AreGood me found
    → AreGood me (Map.remove found name)
remove-AreGood me [] name g = tt
remove-AreGood me ((j, f) ∷ found) name g = elim (Bool-cases (j == name)) [
  | inl hit ↦ rw hit (remove-AreGood me found name g.1)
  | inr miss ↦ rw miss (g.0, remove-AreGood me found name g.1)
]

kept_ips-Distinct :
    (f : Found) (device : DeviceId) (port : ℕ)
    → Distinct f.ips
    → Distinct (kept_ips (some f) device port)
kept_ips-Distinct f device port d =
    elim (Bool-cases (not (f.port == port) || not (f.device_id == device))) [
      | inl restarted ↦ rw restarted tt
      | inr same ↦ rw same d
    ]

get-IsGood :
    (me : DeviceId) (found : List (Chars × Found)) (name : Chars) (device : DeviceId) (port : ℕ)
    → AreGood me found
    → Distinct (kept_ips (Map.get found name) device port)
get-IsGood me [] name device port g = tt
get-IsGood me ((j, f) ∷ found) name device port g = elim (Bool-cases (j == name)) [
  | inl hit ↦ rw hit (kept_ips-Distinct f device port g.0.1)
  | inr miss ↦ rw miss (get-IsGood me found name device port g.1)
]

module _ (u : UuidText) where
  on_device-AreGood :
      (d : Discovery) (n : Node) (s : Service) (o : Option DeviceId)
      → AreGood d.device_id d.found
      → ((on_device u d n s o).0.device_id ≡ d.device_id)
        × AreGood d.device_id (on_device u d n s o).0.found
  unfolding on_device updated
  on_device-AreGood d n s none g = (refl, g)
  on_device-AreGood d n s (some device) g = elim (Bool-cases (device == d.device_id)) [
    | inl me ↦ rw (on_device, me) (refl, g)
    | inr other ↦
        rw (on_device, other)
          (
            refl,
            (
              (
                other,
                add_ips-Distinct _ s.addresses
                    (get-IsGood d.device_id d.found s.fullname device s.port g),
              ),
              remove-AreGood d.device_id d.found s.fullname g,
            ),
          )
  ]

  on_event-AreGood :
      (d : Discovery) (n : Node) (e : ServiceEvent)
      → AreGood d.device_id d.found
      → ((on_event u d n e).0.device_id ≡ d.device_id)
        × AreGood d.device_id (on_event u d n e).0.found
  unfolding on_event
  on_event-AreGood d n (resolved s) g = on_device-AreGood d n s _ g
  on_event-AreGood d n (removed name) g = (refl, remove-AreGood d.device_id d.found name g)
  on_event-AreGood d n unrelated g = (refl, g)

  -- Whatever is announced on the network, this device is not among the devices found, and no device is found
  -- with an address twice, if that held before.
  on_events-AreGood :
      (d : Discovery) (n : Node) (es : List ServiceEvent)
      → AreGood d.device_id d.found
      → AreGood d.device_id (on_events u d n es).0.found
  unfolding on_events
  on_events-AreGood d n [] g = g
  on_events-AreGood d n (e ∷ es) g =
      let (same, good) = on_event-AreGood d n e g in
      subst (λ me. AreGood me (on_events u (on_event u d n e).0 (on_event u d n e).1 es).0.found)
        same
        (on_events-AreGood (on_event u d n e).0 (on_event u d n e).1 es
          (subst (λ me. AreGood me (on_event u d n e).0.found) (sym same) good))
