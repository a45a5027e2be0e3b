-- ===== src/Desktop/Relay/Session/Loop.antt =====
-- The loop of `Task::session` of apps/desktop/src-tauri/src/relay.rs: one handler for each of its events.
use cled.Common.{
  List, Option, [], if◌then◌else◌, is_some, length, list_eq, ltb, map, nat_eq, none, option_eq,
  some, ℕ, ◌++◌, ◌-◌, ◌==◌, ◌∷◌,
}
use cled.Common.Utf8.{codes}
use cled.Clipboard.Content.{Chars}
use cled.Sync.Item.{DeviceId}
use cled.Sync.Item.Text.{UuidText}
use cled.Lan.Node.{Node, Instant}
use cled.Desktop.Answer.{Answer, done, failed}
use cled.Desktop.Tunnel.{Tunnels, Pumped}
use cled.Desktop.Tunnel
use cled.Desktop.Relay.{received}
use cled.Desktop.Relay.Task.{replaced, unauthorized}
use cled.Desktop.Relay.Session.{
  ServerMessage, registered, message, sent, devices, error, send_message, ask_devices, ping, binary,
  tested, paired, Outgoing, test, pair, Connection, Link, Turned, carry_on, drop_with, send_frames,
  and_then, then_turn, later, reply_to, refuse, update_join, parse_ids, idle_timeout,
  replaced_close_code, unauthorized_close_code,
}

pub data Incoming : Type 0 where
  text : Chars → Incoming
  data_frame : List ℕ → Incoming
  close : (code : Option ℕ) → Incoming
  other : Incoming
  broken : (error : Chars) → Incoming
  eof : Incoming

-- The reply to the oldest test message that waits, if there is one.
unfoldable pub pop_front : Connection → List ℕ → Answer ℕ → Connection
pop_front s [] answer = s
pop_front s (reply ∷ pending) answer =
    reply_to (record s { pending = pending }) reply (tested answer)

unfoldable pub on_close : Connection → Option ℕ → Turned
on_close s code =
    if code == some replaced_close_code
    then (
      s,
      some (record {
        error = codes "This device connected to the relay again from somewhere else.";
        kind = replaced;
      }),
    )
    else if code == some unauthorized_close_code
    then (
      s,
      some (record { error = codes "The relay didn't accept your sign-in."; kind = unauthorized }),
    )
    else drop_with s (codes "The relay closed the connection.")

module _ (u : UuidText) (me : DeviceId) (node : Option Node) where
  -- The pairing that waits for the list of devices.
  unfoldable pub continue_pairing : Connection → List Chars → Option (Chars × ℕ) → Link → Turned
  continue_pairing s ids none link = carry_on s
  continue_pairing s ids (some (code, reply)) link = elim node [
    | none ↦ carry_on (
        reply_to (record s { pairing = none }) reply
          (paired (failed (codes "Sync isn't available on this device."))))
    | some n ↦
        let (tunnels, frames, sessions) = Tunnel.pair u s.tunnels ids n code in
        and_then
          (send_frames
            (record s { pairing = none; tunnels = tunnels; sessions = s.sessions ++ sessions }) link
            (map binary frames))
          (λ t. record t { attempts = t.attempts ++ reply ∷ [] })
  ]

  unfoldable pub on_message : Connection → ServerMessage → Link → Turned
  on_message s registered link = carry_on s
  on_message s (message from t) link = carry_on (record s {
    reporter = record s.reporter { shown = s.reporter.shown ++ received from t ∷ [] };
  })
  on_message s (sent recipients) link = carry_on (pop_front s s.pending (done recipients))
  on_message s (error code why) link = carry_on (
      pop_front s s.pending (
        failed (
          if code == codes "no_other_devices"
          then codes "No other devices are signed in to this account right now."
          else why)))
  on_message s (devices ids) link =
      continue_pairing (update_join (record s { online = parse_ids u ids }) me node) ids s.pairing
        link

  -- A frame's reply, if it has one.
  unfoldable pub send_reply : Connection → Link → Option (List ℕ) → Turned
  send_reply s link none = carry_on s
  send_reply s link (some frame) = send_frames s link (binary frame ∷ [])

  -- A frame from the relay. A text that is not understood is ignored.
  unfoldable pub on_incoming :
      (Chars → Option ServerMessage) → Connection → ℕ → Incoming → Link → Turned
  on_incoming from_str s now (text t) link =
      let s' = record s { last_seen = now } in
      elim (from_str t) [ none ↦ carry_on s' | some m ↦ on_message s' m link ]
  on_incoming from_str s now (data_frame frame) link =
      let (tunnels, reply, sessions) = Tunnel.receive u s.tunnels frame (is_some node) in
      send_reply
        (record s { last_seen = now; tunnels = tunnels; sessions = s.sessions ++ sessions }) link
        reply
  on_incoming from_str s now (close code) link = on_close (record s { last_seen = now }) code
  on_incoming from_str s now other link = carry_on (record s { last_seen = now })
  on_incoming from_str s now (broken e) link =
      drop_with (record s { last_seen = now }) (codes "Lost the connection: " ++ e)
  on_incoming from_str s now eof link =
      drop_with (record s { last_seen = now }) (codes "The relay closed the connection.")

  -- A request of the user. Pairing continues when the relay has answered with the devices.
  unfoldable pub on_outgoing : Connection → Outgoing → Link → Turned
  on_outgoing s (test t reply) link =
      and_then (send_frames s link (send_message t ∷ []))
        (λ t. record t { pending = t.pending ++ reply ∷ [] })
  on_outgoing s (pair code reply) link =
      if is_some s.pairing
      then carry_on (refuse s (pair code reply) (codes "Already pairing."))
      else and_then (send_frames s link (ask_devices ∷ []))
          (λ t. record t { pairing = some (code, reply) })

  -- What a session wrote into a tunnel.
  unfoldable pub on_pumped : Connection → Pumped → Link → Turned
  on_pumped s pumped link =
      let (tunnels, frame) = Tunnel.on_pumped u s.tunnels pumped in
      send_reply (record s { tunnels = tunnels }) link frame

  -- `dial.tick()`. What a session writes into a new tunnel comes after the frame that opens it.
  unfoldable pub on_dial : Connection → Instant → Link → Turned
  on_dial s now link = elim node [
    | none ↦ carry_on s
    | some n ↦
        let (tunnels, frames, sessions) = Tunnel.dial u s.tunnels n now in
        then_turn
          (send_frames (record s { tunnels = tunnels; sessions = s.sessions ++ sessions }) link
            (map binary frames))
          (λ t.
            send_frames (update_join t me (some n)) (later link (length frames)) (ask_devices ∷ []))
  ]

-- `ping.tick()`.
unfoldable pub on_ping : Connection → ℕ → Link → Turned
on_ping s now link =
    if ltb idle_timeout (now - s.last_seen)
    then drop_with s (codes "The relay stopped responding.")
    else send_frames s link (ping ∷ [])
