-- ===== src/Desktop/Relay/Session.antt =====
-- `Task::session` of apps/desktop/src-tauri/src/relay.rs: one connection to the relay. The crate serde_json is
-- a parameter, and so is the text of an error. Whoever waits for a reply is a number.
pub mod Opening
pub mod Loop
pub mod Idle
pub mod Run
pub mod Order
pub mod Replies
use cled.Common.{
  List, Option, [], if◌then◌else◌, length, list_eq, ltb, map, nat_eq, none, some, take, ℕ, ◌++◌,
  ◌-◌, ◌∷◌,
}
use cled.Common.Utf8.{codes}
use cled.Clipboard.Content.{Chars}
use cled.Sync.Item.{DeviceId}
use cled.Sync.Item.Text.{UuidText, parse_id}
use cled.Lan.Node.{Node, PeerStatus, peer_statuses}
use cled.Desktop.Answer.{Answer, done, failed}
use cled.Desktop.Tunnel.{Tunnels}
use cled.Desktop.Tunnel
use cled.Desktop.Relay.{Reporter, received, set_join, join_status}
use cled.Desktop.Relay.Task.{Ended, EndKind, dropped}

abbrev pub idle_timeout : ℕ
idle_timeout = 50

abbrev pub replaced_close_code : ℕ
replaced_close_code = 4001

abbrev pub unauthorized_close_code : ℕ
unauthorized_close_code = 4401

pub data ServerMessage : Type 0 where
  registered : ServerMessage
  message : (from_device_id : Chars) → (text : Chars) → ServerMessage
  sent : (recipients : ℕ) → ServerMessage
  devices : (device_ids : List Chars) → ServerMessage
  error : (code : Chars) → (text : Chars) → ServerMessage

-- What is sent to the relay: the three messages, a tunnel's frame, and a ping.
pub data Frame : Type 0 where
  register : (access_token : Chars) → (device_id : Chars) → Frame
  send_message : (text : Chars) → Frame
  ask_devices ping : Frame
  binary : List ℕ → Frame

pub data Reply : Type 0 where
  tested : Answer ℕ → Reply
  paired : Answer Chars → Reply

pub data Outgoing : Type 0 where
  test : (text : Chars) → (reply : ℕ) → Outgoing
  pair : (code : Chars) → (reply : ℕ) → Outgoing

-- The variables of `session`. `replies` are those that were sent, and `attempts` the replies that wait for
-- the outcome of a pairing, each in order.
pub record Connection : Type 0 where
  pub pending : List ℕ
  pub last_seen : ℕ
  pub tunnels : Tunnels
  pub pairing : Option (Chars × ℕ)
  pub online : List DeviceId
  pub reporter : Reporter
  pub outbox : List Frame
  pub replies : List (ℕ × Reply)
  pub attempts : List ℕ
  pub sessions : List Tunnel.Session

-- What the socket does: nothing is lost, or it fails after some frames with an error.
abbrev pub Link : Type 0
Link = Option (ℕ × Chars)

abbrev pub Turned : Type 0
Turned = Connection × Option Ended

abbrev pub carry_on : Connection → Turned
carry_on s = (s, none)

abbrev pub drop_with : Connection → Chars → Turned
drop_with s text = (s, some (record { error = text; kind = dropped }))

-- `sink.send` of frames that follow each other.
unfoldable pub send_frames : Connection → Link → List Frame → Turned
send_frames s none frames = carry_on (record s { outbox = s.outbox ++ frames })
send_frames s (some (count, text)) frames =
    if ltb count (length frames)
    then drop_with (record s { outbox = s.outbox ++ take count frames })
        (codes "Lost the connection: " ++ text)
    else carry_on (record s { outbox = s.outbox ++ frames })

-- What follows frames that were sent.
abbrev pub and_then : Turned → (Connection → Connection) → Turned
and_then (s, some e) k = (s, some e)
and_then (s, none) k = (k s, none)

abbrev pub then_turn : Turned → (Connection → Turned) → Turned
then_turn (s, some e) k = (s, some e)
then_turn (s, none) k = k s

-- What the socket does once it has taken `count` frames.
abbrev pub later : Link → ℕ → Link
later none count = none
later (some (left, text)) count = some (left - count, text)

abbrev pub reply_to : Connection → ℕ → Reply → Connection
reply_to s reply answer = record s { replies = s.replies ++ (reply, answer) ∷ [] }

-- `Outgoing::refuse`.
unfoldable pub refuse : Connection → Outgoing → Chars → Connection
refuse s (test text reply) why = reply_to s reply (tested (failed why))
refuse s (pair code reply) why = reply_to s reply (paired (failed why))

-- `update_join`, on a device with a node or none.
unfoldable pub update_join : Connection → DeviceId → Option Node → Connection
update_join s me none = s
update_join s me (some n) = record s {
  reporter =
      set_join s.reporter
        (join_status me s.online (map (λ (p : PeerStatus). p.device_id) (peer_statuses n)));
}

-- `filter_map(|id| id.parse().ok())`.
unfoldable pub parse_ids : UuidText → List Chars → List DeviceId
parse_ids u [] = []
parse_ids u (t ∷ ts) = elim (parse_id u t) [ none ↦ parse_ids u ts | some id ↦ id ∷ parse_ids u ts ]
