-- ===== src/Desktop/Relay/Session/Replies.antt =====
-- The replies to test messages of a whole session in apps/desktop/src-tauri/src/relay.rs.
use mathlib.Core.List.{append-nil, append_assoc}
use cled.Common.{
  Bool-cases, List, Option, [], ap, inl, inr, is_some, nat_eq, none, refl, some, sym, ℕ, ◌++◌, ◌∙◌,
  ◌∷◌, ◌≡◌,
}
use cled.Clipboard.Content.{Chars}
use cled.Sync.Item.{DeviceId}
use cled.Sync.Item.Text.{UuidText}
use cled.Lan.Node.{Node}
use cled.Desktop.Relay.Task.{Ended}
use cled.Desktop.Relay.Session.{
  ServerMessage, test, pair, send_message, Connection, Link, Turned, then_turn, and_then,
  send_frames, refuse,
}
use cled.Desktop.Relay.Session.Loop.{on_incoming, on_pumped, on_dial, on_ping, on_outgoing}
use cled.Desktop.Relay.Session.Run.{Step, comes, asked, wrote, dial_due, ping_due, on_step, run}
use cled.Desktop.Relay.Session.Order.{
  answered-snoc_paired, sent-Keeps, in_order, Keeps, answered, on_incoming-Keeps, on_pumped-Keeps,
  on_dial-Keeps, on_ping-Keeps, send_frames-Keeps,
}

-- The test message of a request that was sent.
abbrev tests_of : Step → Option Ended → List ℕ
tests_of (asked (test t reply)) none = reply ∷ []
tests_of step ended = []

-- A turn adds the test message that it sends to the end.
abbrev Adds : Connection → List ℕ → Turned → Type 0
Adds s added r = in_order r.0 ≡ in_order s ++ added

queue_test :
    (s : Connection) (t : Chars) (reply : ℕ) (r : Turned)
    → Keeps s r
    → Adds s
        (tests_of
          (asked (test t reply))
          (and_then r (λ t. record t { pending = t.pending ++ reply ∷ [] })).1)
        (and_then r (λ t. record t { pending = t.pending ++ reply ∷ [] }))
unfolding in_order
queue_test s t reply (x, some e) h = h ∙ sym (append-nil (in_order s))
queue_test s t reply (x, none) h =
    sym (append_assoc (answered x.replies) x.pending (reply ∷ [])) ∙ ap (λ l. l ++ reply ∷ []) h

-- Nothing is added.
plain : (s : Connection) (r : Turned) → Keeps s r → Adds s [] r
plain s r h = h ∙ sym (append-nil (in_order s))

-- A request to pair waits for the devices, or is refused while another one waits.
pair_asked-Keeps :
    (u : UuidText) (me : DeviceId) (local : Option Node) (s : Connection) (code : Chars) (reply : ℕ)
    (link : Link)
    → Keeps s (on_outgoing u me local s (pair code reply) link)
unfolding on_outgoing refuse in_order
pair_asked-Keeps u me local s code reply link = elim (Bool-cases (is_some s.pairing)) [
  | inl busy ↦
      rw (on_outgoing, busy) (ap (λ l. l ++ s.pending) (answered-snoc_paired s.replies reply _))
  | inr idle ↦ rw (on_outgoing, idle) (sent-Keeps s s link _ _ refl (λ t. refl))
]

on_step-Adds :
    (u : UuidText) (me : DeviceId) (local : Option Node) (from_str : Chars → Option ServerMessage)
    (s : Connection) (step : Step) (link : Link)
    → Adds s
        (tests_of step (on_step u me local from_str s step link).1)
        (on_step u me local from_str s step link)
unfolding on_step on_outgoing
on_step-Adds u me local from_str s (comes now i) link =
    plain s (on_incoming u me local from_str s now i link)
      (on_incoming-Keeps u me local from_str s now i link)
on_step-Adds u me local from_str s (asked (test t reply)) link =
    queue_test s t reply (send_frames s link (send_message t ∷ []))
      (send_frames-Keeps s link (send_message t ∷ []))
on_step-Adds u me local from_str s (asked (pair code reply)) link =
    plain s (on_outgoing u me local s (pair code reply) link)
      (pair_asked-Keeps u me local s code reply link)
on_step-Adds u me local from_str s (wrote pumped) link =
    plain s (on_pumped u me local s pumped link) (on_pumped-Keeps u me local s pumped link)
on_step-Adds u me local from_str s (dial_due now) link =
    plain s (on_dial u me local s now link) (on_dial-Keeps u me local s now link)
on_step-Adds u me local from_str s (ping_due now) link =
    plain s (on_ping s now link) (on_ping-Keeps s now link)

-- What follows a turn, if the session goes on.
abbrev unless_over : Option Ended → List ℕ → List ℕ
unless_over none more = more
unless_over (some ended) more = []

module _ (u : UuidText) (me : DeviceId) (local : Option Node)
    (from_str : Chars → Option ServerMessage) where
  -- The test messages that are sent while the session runs, in order.
  unfoldable pub tests_sent : Connection → List (Step × Link) → List ℕ
  tests_sent s [] = []
  tests_sent s ((step, link) ∷ rest) =
      let turned = on_step u me local from_str s step link in
      let more = tests_sent turned.0 rest in tests_of step turned.1 ++ unless_over turned.1 more

  turned_in_order :
      (s : Connection) (step : Step) (rest : List (Step × Link)) (r : Turned)
      → Adds s (tests_of step r.1) r
      → in_order (run u me local from_str r.0 rest).0 ≡ in_order r.0 ++ tests_sent r.0 rest
      → in_order (then_turn r (λ t. run u me local from_str t rest)).0
        ≡ in_order s ++ (tests_of step r.1 ++ unless_over r.1 (tests_sent r.0 rest))
  turned_in_order s step rest (x, none) h later =
      later
      ∙ ap (λ l. l ++ tests_sent x rest) h
      ∙ append_assoc (in_order s) (tests_of step none) (tests_sent x rest)
  turned_in_order s step rest (x, some e) h later =
      h ∙ ap (λ l. in_order s ++ l) (sym (append-nil (tests_of step (some e))))

  -- Whatever comes in a session: the test messages that were replied to, in the order of their replies, and
  -- then those that wait for one, are those that were before and then those that were sent, in their order.
  pub in_order-run :
      (s : Connection) (steps : List (Step × Link))
      → in_order (run u me local from_str s steps).0 ≡ in_order s ++ tests_sent s steps
  unfolding run tests_sent
  in_order-run s [] = sym (append-nil (in_order s))
  in_order-run s ((step, link) ∷ rest) =
      let turned = on_step u me local from_str s step link in
      turned_in_order s step rest turned (on_step-Adds u me local from_str s step link)
        (in_order-run turned.0 rest)
