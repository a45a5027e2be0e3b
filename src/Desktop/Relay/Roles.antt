-- ===== src/Desktop/Relay/Roles.antt =====
-- Which device shows a code and which asks for it: `JoinStatus` of apps/desktop/src-tauri/src/relay.rs.
use cled.Common.{
  Bool, Bool-cases, List, [], any, arith, contains, false, inl, inr, ltb, nat_eq, nat_eq_iff, not,
  refl, retain, subst, sym, true, ◌&&◌, ◌<◌, ◌==◌, ◌||◌, ◌∙◌, ◌∷◌, ◌≡◌,
}
use cled.Sync.Item.{DeviceId}
use cled.Desktop.Relay.{JoinStatus, no_join, is_unpaired, add_device, add_devices, join_status}

add_devices-show_code :
    (me : DeviceId) (s : JoinStatus) (ids : List DeviceId)
    → (add_devices me s ids).show_code ≡ (s.show_code || any (λ id. ltb me id) ids)
add_devices-show_code me s [] = ground arith
add_devices-show_code me s (id ∷ ids) =
    ground (arith, add_devices-show_code me (add_device me s id) ids)

add_devices-enter_code :
    (me : DeviceId) (s : JoinStatus) (ids : List DeviceId)
    → (add_devices me s ids).enter_code ≡ (s.enter_code || any (λ id. not (ltb me id)) ids)
add_devices-enter_code me s [] = ground arith
add_devices-enter_code me s (id ∷ ids) =
    ground (arith, add_devices-enter_code me (add_device me s id) ids)

-- A search of the entries kept.
any-retain :
    (p q : DeviceId → Bool) (ids : List DeviceId)
    → any q (retain p ids) ≡ any (λ id. p id && q id) ids
any-retain p q [] = refl
any-retain p q (id ∷ ids) = ground (arith, any-retain p q ids)

-- A code is shown if an unpaired device that is online has a higher id, and asked for if one has not.
join_status-any :
    (me : DeviceId) (online paired : List DeviceId)
    → ((join_status me online paired).show_code
        ≡ any (λ id. is_unpaired me paired id && ltb me id) online)
      × ((join_status me online paired).enter_code
          ≡ any (λ id. is_unpaired me paired id && not (ltb me id)) online)
unfolding join_status
join_status-any me online paired = (
  add_devices-show_code me no_join (retain (is_unpaired me paired) online)
      ∙ any-retain (is_unpaired me paired) (λ id. ltb me id) online,
  add_devices-enter_code me no_join (retain (is_unpaired me paired) online)
      ∙ any-retain (is_unpaired me paired) (λ id. not (ltb me id)) online,
)

any-contains :
    (p : DeviceId → Bool) (ids : List DeviceId) (id : DeviceId)
    → contains ids id ≡ true
    → p id ≡ true
    → any p ids ≡ true
any-contains p [] id c h = absurd (ground arith)
any-contains p (x ∷ ids) id c h = elim (Bool-cases (x == id)) [
  | inl same ↦ ground (arith, subst (λ y. p y ≡ true) (sym ((nat_eq_iff x id).0 same)) h)
  | inr apart ↦ ground (arith, apart, any-contains p ids id)
]

-- Of two devices that see each other online and are not paired, the one with the lower id shows a code
-- and the other asks for one, whatever other devices each of them sees or is paired with.
pub join_status_roles :
    (low high : DeviceId) (seen_low paired_low seen_high paired_high : List DeviceId)
    → low < high
    → contains seen_low high ≡ true
    → contains paired_low high ≡ false
    → contains seen_high low ≡ true
    → contains paired_high low ≡ false
    → ((join_status low seen_low paired_low).show_code ≡ true)
      × ((join_status high seen_high paired_high).enter_code ≡ true)
join_status_roles low high seen_low paired_low seen_high paired_high lt sl pl sh ph = (
  (join_status-any low seen_low paired_low).0
      ∙ any-contains (λ id. is_unpaired low paired_low id && ltb low id) seen_low high sl
          (ground (arith, pl)),
  (join_status-any high seen_high paired_high).1
      ∙ any-contains (λ id. is_unpaired high paired_high id && not (ltb high id)) seen_high low sh
          (ground (arith, ph)),
)

-- With no other device online that is not paired, there is nothing to do.
any-none :
    (p q : DeviceId → Bool) (ids : List DeviceId)
    → any p ids ≡ false
    → any (λ id. p id && q id) ids ≡ false
any-none p q [] h = refl
any-none p q (id ∷ ids) h = ground (arith, any-none p q ids)

join_status_idle :
    (me : DeviceId) (online paired : List DeviceId)
    → any (is_unpaired me paired) online ≡ false
    → join_status me online paired ≡ no_join
join_status_idle me online paired h = ground (
  arith,
  join_status-any me online paired,
  any-none (is_unpaired me paired) (λ id. ltb me id) online h,
  any-none (is_unpaired me paired) (λ id. not (ltb me id)) online h,
)
