-- ===== src/Tests/Session.antt =====
-- The theorems of a session with the relay at concrete inputs.
use cled.Common.{List, Option, [], false, nat_eq, none, refl, some, ◌++◌, ◌∷◌, ◌≡◌}
use cled.Common.Utf8.{codes}
use cled.Clipboard.Content.{Chars}
use cled.Desktop.Relay.{connected}
use cled.Desktop.Relay.Session.{ServerMessage, sent, test, Connection, Link, send_frames}
use cled.Desktop.Relay.Session.Loop.{text, on_incoming, on_outgoing, on_ping, on_message, pop_front}
use cled.Desktop.Relay.Session.Run.{Step, comes, asked, ping_due, run, on_step}
use cled.Desktop.Relay.Session.Order.{in_order}
use cled.Desktop.Relay.Session.Replies.{tests_sent, in_order-run}
use cled.Desktop.Tunnel.{new_tunnels}
use cled.Tests.Desktop.{uuid, small_node}

abbrev from_str : Chars → Option ServerMessage
from_str [] = none
from_str (c ∷ cs) = some (sent 2)

abbrev connection : Connection
connection = record {
  pending = 3 ∷ [];
  last_seen = 0;
  tunnels = new_tunnels;
  pairing = none;
  online = [];
  reporter = record {
    status = connected;
    join = record { show_code = false; enter_code = false };
    shown = [];
  };
  outbox = [];
  replies = [];
  attempts = [];
  sessions = [];
}

-- Two test messages and an answer, then the socket fails at a third one.
abbrev steps : List (Step × Link)
steps =
    (asked (test (codes "a") 4), none)
    ∷ (comes 1 (text (codes "sent")), none)
    ∷ (asked (test (codes "b") 5), none)
    ∷ (ping_due 20, none)
    ∷ (asked (test (codes "c") 6), some (0, []))
    ∷ []

in_order-run_example :
    in_order (run uuid 1 (some small_node) from_str connection steps).0
    ≡ in_order connection ++ tests_sent uuid 1 (some small_node) from_str connection steps
in_order-run_example = in_order-run uuid 1 (some small_node) from_str connection steps

-- What is sent of them.
sent_two : tests_sent uuid 1 (some small_node) from_str connection steps ≡ 4 ∷ 5 ∷ []
unfolding tests_sent on_step on_incoming on_outgoing on_ping on_message pop_front send_frames
sent_two = refl
