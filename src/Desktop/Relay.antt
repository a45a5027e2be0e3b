-- ===== src/Desktop/Relay.antt =====
-- apps/desktop/src-tauri/src/relay.rs: what the connection to the relay should be, and what is shown of
-- it. Times are in seconds.
pub mod Task
pub mod Session
pub mod Roles
pub mod Pacing
pub mod Sound
use cled.Common.{
  Bool, List, Option, [], contains, false, if◌then◌else◌, list_eq, ltb, nat_eq, none, not,
  option_eq, retain, some, true, ℕ, ◌&&◌, ◌++◌, ◌==◌, ◌||◌, ◌∷◌,
}
use cled.Common.Utf8.{codes}
use cled.Clipboard.Content.{Chars}
use cled.Sync.Item.{DeviceId}
use cled.Desktop.Answer.{Url, UrlCrate}
use cled.Desktop.Settings.{ConnectionMode, relay, lan, Settings}

pub data RelayStatus : Type 0 where
  off needs_sign_in connecting connected : RelayStatus
  failed : (error : Chars) → (retry_in_secs : Option ℕ) → RelayStatus

-- `PartialEq` of `RelayStatus`.
abbrev pub status_beq : RelayStatus → RelayStatus → Bool
status_beq off off = true
status_beq needs_sign_in needs_sign_in = true
status_beq connecting connecting = true
status_beq connected connected = true
status_beq (failed e r) (failed e' r') = e == e' && r == r'
status_beq _ _ = false

pub record JoinStatus : Type 0 where
  pub show_code : Bool
  pub enter_code : Bool

-- `JoinStatus::default`.
abbrev pub no_join : JoinStatus
no_join = record { show_code = false; enter_code = false }

abbrev iff : Bool → Bool → Bool
iff true b = b
iff false b = not b

-- `PartialEq` of `JoinStatus`.
abbrev pub join_beq : JoinStatus → JoinStatus → Bool
join_beq a b = iff a.show_code b.show_code && iff a.enter_code b.enter_code

-- The devices that `JoinStatus::new` goes over.
abbrev pub is_unpaired : DeviceId → List DeviceId → DeviceId → Bool
is_unpaired me paired id = not (id == me) && not (contains paired id)

-- One turn of its loop.
abbrev pub add_device : DeviceId → JoinStatus → DeviceId → JoinStatus
add_device me status id =
    if ltb me id then record status { show_code = true } else record status { enter_code = true }

abbrev pub add_devices : DeviceId → JoinStatus → List DeviceId → JoinStatus
add_devices me status [] = status
add_devices me status (id ∷ ids) = add_devices me (add_device me status id) ids

-- `JoinStatus::new`.
unfoldable pub join_status : DeviceId → List DeviceId → List DeviceId → JoinStatus
join_status me online paired = add_devices me no_join (retain (is_unpaired me paired) online)

-- The new scheme, if the old one is one of the web's.
abbrev socket_scheme : Chars → Option Chars
socket_scheme scheme =
    if scheme == codes "http"
    then some (codes "ws")
    else if scheme == codes "https"
    then some (codes "wss")
    else none

-- `trim_end_matches('/')`.
abbrev pub trim_slashes : Chars → Chars
trim_slashes [] = []
trim_slashes (c ∷ cs) = elim (trim_slashes cs) [
  | [] ↦ if c == b'/' then [] else c ∷ []
  | d ∷ ds ↦ c ∷ d ∷ ds
]

module _ (c : UrlCrate) where
  -- `socket_url` once the scheme is set.
  unfoldable pub endpoint : Url → Chars
  endpoint url =
      let url' = c.set_path url (trim_slashes url.path ++ codes "/relay") in
      c.into (record url' { query = none; fragment = none })

  unfoldable pub socket_url : Chars → Option Chars
  socket_url relay_url = elim (c.parse relay_url) [
    | none ↦ none
    | some url ↦ elim (socket_scheme url.scheme) [
      | none ↦ none
      | some scheme ↦ elim (c.set_scheme url scheme) [
        | none ↦ none
        | some url' ↦ some (endpoint url')
      ]
    ]
  ]

pub data Desired : Type 0 where
  desire_off desire_sign_in : Desired
  connect : (url : Chars) → Desired

-- `PartialEq` of `Desired`.
abbrev desired_beq : Desired → Desired → Bool
desired_beq desire_off desire_off = true
desired_beq desire_sign_in desire_sign_in = true
desired_beq (connect url) (connect url') = url == url'
desired_beq _ _ = false

pub record Inputs : Type 0 where
  pub mode : ConnectionMode
  pub relay_url : Chars
  pub signed_in : Bool

abbrev desire_url : Option Chars → Desired
desire_url none = desire_off
desire_url (some url) = connect url

unfoldable pub from_inputs : UrlCrate → Inputs → Desired
from_inputs c i = elim i.mode [
  | lan ↦ desire_off
  | relay ↦ if not i.signed_in then desire_sign_in else desire_url (socket_url c i.relay_url)
]

-- `unseen` is whether the task has been woken for a desired state that it has not looked at.
pub record Control : Type 0 where
  pub inputs : Inputs
  pub desired : Desired
  pub unseen : Bool

module _ (c : UrlCrate) where
  -- `Control::update`.
  unfoldable pub update : Control → (Inputs → Inputs) → Control
  update s change =
      let inputs = change s.inputs in
      let next = from_inputs c inputs in
      record {
        inputs = inputs;
        desired = next;
        unseen = s.unseen || not (desired_beq s.desired next);
      }

  unfoldable pub configure : Control → Settings → Control
  configure s settings =
      update s (λ i. record i { mode = settings.connection_mode; relay_url = settings.relay_url })

  unfoldable pub set_signed_in : Control → Bool → Control
  set_signed_in s signed_in = update s (λ i. record i { signed_in = signed_in })

-- `signed_out` is the new status of the account.
pub data Shown : Type 0 where
  signed_out : Shown
  changed : RelayStatus → Shown
  join_changed : JoinStatus → Shown
  notify : (body : Chars) → Shown
  received : (from_device_id : Chars) → (message : Chars) → Shown

-- `shown` is what the user interface was told, and what was shown outside it, in order.
pub record Reporter : Type 0 where
  pub status : RelayStatus
  pub join : JoinStatus
  pub shown : List Shown

-- The notification of `set_join`, if any.
unfoldable pub join_notice : JoinStatus → JoinStatus → List Shown
join_notice previous join =
    if join.enter_code && not previous.enter_code
    then notify (
        codes
          "A new device signed in to your account. Open Cled and enter the code it shows to start syncing.")
      ∷ []
    else if join.show_code && not previous.show_code
    then notify (
        codes
          "Another device on your account wants to sync. Open Cled to see the code to enter there.")
      ∷ []
    else []

unfoldable pub set_join : Reporter → JoinStatus → Reporter
set_join r join =
    if join_beq r.join join
    then r
    else record r { join = join; shown = r.shown ++ join_changed join ∷ join_notice r.join join }

-- The rest of `Reporter::set`.
unfoldable pub store : Reporter → RelayStatus → Reporter
store r status =
    if status_beq r.status status
    then r
    else record r { status = status; shown = r.shown ++ changed status ∷ [] }

-- `Reporter::set`.
unfoldable pub set : Reporter → RelayStatus → Reporter
set r status = store (if status_beq status connected then r else set_join r no_join) status
