-- ===== src/Desktop/Relay/Session/Order.antt =====
-- The order of the replies to test messages in `Task::session` of apps/desktop/src-tauri/src/relay.rs.
use cled.Common.{
  Bool-cases, List, Option, Option-cases, [], ap, inl, inr, length, ltb, nat_eq, none, option_eq,
  refl, some, sym, ℕ, ◌++◌, ◌-◌, ◌==◌, ◌∙◌, ◌∷◌, ◌≡◌,
}
use cled.Clipboard.Content.{Chars}
use cled.Sync.Item.{DeviceId}
use cled.Sync.Item.Text.{UuidText}
use cled.Lan.Node.{Node, Instant}
use cled.Desktop.Answer.{Answer}
use cled.Desktop.Tunnel.{Pumped}
use cled.Desktop.Relay.Session.{
  ServerMessage, registered, message, sent, devices, error, Reply, tested, paired, Frame,
  replaced_close_code, unauthorized_close_code, idle_timeout, Connection, Link, Turned, and_then,
  then_turn, send_frames, update_join,
}
use cled.Desktop.Relay.Session.Loop.{
  Incoming, text, data_frame, close, other, broken, eof, pop_front, on_close, continue_pairing,
  on_message, send_reply, on_incoming, on_pumped, on_dial, on_ping,
}

-- The test messages that were replied to, in order.
abbrev pub answered : List (ℕ × Reply) → List ℕ
answered [] = []
answered ((reply, tested answer) ∷ rest) = reply ∷ answered rest
answered ((reply, paired answer) ∷ rest) = answered rest

-- Those, and then those that wait.
unfoldable pub in_order : Connection → List ℕ
in_order s = answered s.replies ++ s.pending

answered-snoc_tested :
    (rs : List (ℕ × Reply)) (reply : ℕ) (a : Answer ℕ) (waiting : List ℕ)
    → answered (rs ++ (reply, tested a) ∷ []) ++ waiting ≡ answered rs ++ reply ∷ waiting
answered-snoc_tested [] reply a waiting = refl
answered-snoc_tested ((r, tested b) ∷ rs) reply a waiting =
    ap (λ l. r ∷ l) (answered-snoc_tested rs reply a waiting)
answered-snoc_tested ((r, paired b) ∷ rs) reply a waiting = answered-snoc_tested rs reply a waiting

pub answered-snoc_paired :
    (rs : List (ℕ × Reply)) (reply : ℕ) (a : Answer Chars)
    → answered (rs ++ (reply, paired a) ∷ []) ≡ answered rs
answered-snoc_paired [] reply a = refl
answered-snoc_paired ((r, tested b) ∷ rs) reply a =
    ap (λ l. r ∷ l) (answered-snoc_paired rs reply a)
answered-snoc_paired ((r, paired b) ∷ rs) reply a = answered-snoc_paired rs reply a

-- A turn leaves the order as it was.
abbrev pub Keeps : Connection → Turned → Type 0
Keeps s r = in_order r.0 ≡ in_order s

pub send_frames-Keeps :
    (s : Connection) (link : Link) (frames : List Frame) → Keeps s (send_frames s link frames)
unfolding send_frames in_order
send_frames-Keeps s none frames = refl
send_frames-Keeps s (some (count, why)) frames = elim (Bool-cases (ltb count (length frames))) [
  | inl short ↦ rw (send_frames, short) refl
  | inr long ↦ rw (send_frames, long) refl
]

and_then-Keeps :
    (s : Connection) (r : Turned) (k : Connection → Connection)
    → Keeps s r
    → ((t : Connection) → in_order (k t) ≡ in_order t)
    → Keeps s (and_then r k)
and_then-Keeps s (t, some e) k h each = h
and_then-Keeps s (t, none) k h each = each t ∙ h

then_turn-Keeps :
    (s : Connection) (r : Turned) (k : Connection → Turned)
    → Keeps s r
    → ((t : Connection) → Keeps t (k t))
    → Keeps s (then_turn r k)
then_turn-Keeps s (t, some e) k h each = h
then_turn-Keeps s (t, none) k h each = each t ∙ h

-- Frames that are sent from a state with the same order.
pub sent-Keeps :
    (s s' : Connection) (link : Link) (frames : List Frame) (k : Connection → Connection)
    → in_order s' ≡ in_order s
    → ((t : Connection) → in_order (k t) ≡ in_order t)
    → Keeps s (and_then (send_frames s' link frames) k)
sent-Keeps s s' link frames k h each =
    and_then-Keeps s (send_frames s' link frames) k (send_frames-Keeps s' link frames ∙ h) each

dialed-Keeps :
    (s s' : Connection) (link : Link) (frames : List Frame) (k : Connection → Turned)
    → in_order s' ≡ in_order s
    → ((t : Connection) → Keeps t (k t))
    → Keeps s (then_turn (send_frames s' link frames) k)
dialed-Keeps s s' link frames k h each =
    then_turn-Keeps s (send_frames s' link frames) k (send_frames-Keeps s' link frames ∙ h) each

pop_front-in_order :
    (s : Connection) (pending : List ℕ) (answer : Answer ℕ)
    → s.pending ≡ pending
    → in_order (pop_front s pending answer) ≡ in_order s
unfolding pop_front in_order
pop_front-in_order s [] answer h = refl
pop_front-in_order s (reply ∷ pending) answer h =
    answered-snoc_tested s.replies reply answer pending ∙ ap (λ l. answered s.replies ++ l) (sym h)

update_join-in_order :
    (s : Connection) (me : DeviceId) (local : Option Node)
    → in_order (update_join s me local) ≡ in_order s
unfolding update_join in_order
update_join-in_order s me none = refl
update_join-in_order s me (some n) = refl

continue_pairing-Keeps :
    (u : UuidText) (me : DeviceId) (local : Option Node) (s : Connection) (ids : List Chars)
    (pairing : Option (Chars × ℕ)) (link : Link)
    → Keeps s (continue_pairing u me local s ids pairing link)
unfolding continue_pairing in_order
continue_pairing-Keeps u me local s ids none link = refl
continue_pairing-Keeps u me none s ids (some (code, reply)) link =
    ap (λ l. l ++ s.pending) (answered-snoc_paired s.replies reply _)
continue_pairing-Keeps u me (some n) s ids (some (code, reply)) link =
    sent-Keeps s _ link _ _ refl (λ t. refl)

on_message-Keeps :
    (u : UuidText) (me : DeviceId) (local : Option Node) (s : Connection) (m : ServerMessage)
    (link : Link)
    → Keeps s (on_message u me local s m link)
unfolding on_message in_order
on_message-Keeps u me local s registered link = refl
on_message-Keeps u me local s (message from t) link = refl
on_message-Keeps u me local s (sent recipients) link = pop_front-in_order s s.pending _ refl
on_message-Keeps u me local s (error code why) link = pop_front-in_order s s.pending _ refl
on_message-Keeps u me local s (devices ids) link =
    continue_pairing-Keeps u me local _ ids s.pairing link ∙ update_join-in_order _ me local

send_reply-Keeps :
    (u : UuidText) (me : DeviceId) (local : Option Node) (s : Connection) (link : Link)
    (frame : Option (List ℕ))
    → Keeps s (send_reply u me local s link frame)
unfolding send_reply
send_reply-Keeps u me local s link none = refl
send_reply-Keeps u me local s link (some frame) = send_frames-Keeps s link _

on_close-Keeps : (s : Connection) (code : Option ℕ) → Keeps s (on_close s code)
unfolding on_close
on_close-Keeps s code = elim (Bool-cases (code == some replaced_close_code)) [
  | inl again ↦ rw (on_close, again) refl
  | inr first ↦ elim (Bool-cases (code == some unauthorized_close_code)) [
    | inl refused ↦ rw (on_close, first) (rw refused refl)
    | inr closed ↦ rw (on_close, first) (rw closed refl)
  ]
]

on_text-Keeps :
    (u : UuidText) (me : DeviceId) (local : Option Node) (from_str : Chars → Option ServerMessage)
    (s : Connection) (now : ℕ) (t : Chars) (link : Link)
    → Keeps s (on_incoming u me local from_str s now (text t) link)
unfolding on_incoming in_order
on_text-Keeps u me local from_str s now t link = elim (Option-cases (from_str t)) [
  | inl odd ↦ rw (on_incoming, odd) refl
  | inr (m, read) ↦ rw (on_incoming, read) (on_message-Keeps u me local _ m link)
]

pub on_incoming-Keeps :
    (u : UuidText) (me : DeviceId) (local : Option Node) (from_str : Chars → Option ServerMessage)
    (s : Connection) (now : ℕ) (i : Incoming) (link : Link)
    → Keeps s (on_incoming u me local from_str s now i link)
unfolding on_incoming in_order
on_incoming-Keeps u me local from_str s now (text t) link =
    on_text-Keeps u me local from_str s now t link
on_incoming-Keeps u me local from_str s now (data_frame frame) link =
    send_reply-Keeps u me local _ link _
on_incoming-Keeps u me local from_str s now (close code) link = on_close-Keeps _ code
on_incoming-Keeps u me local from_str s now other link = refl
on_incoming-Keeps u me local from_str s now (broken e) link = refl
on_incoming-Keeps u me local from_str s now eof link = refl

pub on_pumped-Keeps :
    (u : UuidText) (me : DeviceId) (local : Option Node) (s : Connection) (pumped : Pumped)
    (link : Link)
    → Keeps s (on_pumped u me local s pumped link)
unfolding on_pumped in_order
on_pumped-Keeps u me local s pumped link = send_reply-Keeps u me local _ link _

pub on_dial-Keeps :
    (u : UuidText) (me : DeviceId) (local : Option Node) (s : Connection) (now : Instant)
    (link : Link)
    → Keeps s (on_dial u me local s now link)
unfolding on_dial in_order
on_dial-Keeps u me none s now link = refl
on_dial-Keeps u me (some n) s now link =
    dialed-Keeps s _ link _ _ refl
      (λ t. send_frames-Keeps (update_join t me (some n)) _ _ ∙ update_join-in_order t me (some n))

pub on_ping-Keeps : (s : Connection) (now : ℕ) (link : Link) → Keeps s (on_ping s now link)
unfolding on_ping
on_ping-Keeps s now link = elim (Bool-cases (ltb idle_timeout (now - s.last_seen))) [
  | inl silent ↦ rw (on_ping, silent) refl
  | inr heard ↦ rw (on_ping, heard) (send_frames-Keeps s link _)
]
