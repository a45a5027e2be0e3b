-- ===== src/Desktop/Relay/Session/Run.antt =====
-- The loop of `Task::session` of apps/desktop/src-tauri/src/relay.rs over the events that come.
use cled.Common.{List, Option, [], nat_eq, none, ℕ, ◌∷◌}
use cled.Clipboard.Content.{Chars}
use cled.Sync.Item.{DeviceId}
use cled.Sync.Item.Text.{UuidText}
use cled.Lan.Node.{Node, Instant}
use cled.Desktop.Tunnel.{Pumped}
use cled.Desktop.Relay.Session.{ServerMessage, Outgoing, Connection, Link, Turned, then_turn}
use cled.Desktop.Relay.Session.Loop.{
  Incoming, on_incoming, on_outgoing, on_pumped, on_dial, on_ping,
}

-- What the loop waits for.
pub data Step : Type 0 where
  comes : (now : ℕ) → Incoming → Step
  asked : Outgoing → Step
  wrote : Pumped → Step
  dial_due : (now : Instant) → Step
  ping_due : (now : ℕ) → Step

module _ (u : UuidText) (me : DeviceId) (local : Option Node)
    (from_str : Chars → Option ServerMessage) where
  unfoldable pub on_step : Connection → Step → Link → Turned
  on_step s (comes now i) link = on_incoming u me local from_str s now i link
  on_step s (asked out) link = on_outgoing u me local s out link
  on_step s (wrote pumped) link = on_pumped u me local s pumped link
  on_step s (dial_due now) link = on_dial u me local s now link
  on_step s (ping_due now) link = on_ping s now link

  -- The loop ends with the session. Each event comes with what the socket then does.
  unfoldable pub run : Connection → List (Step × Link) → Turned
  run s [] = (s, none)
  run s ((step, link) ∷ rest) = then_turn (on_step s step link) (λ t. run t rest)
