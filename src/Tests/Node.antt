-- ===== src/Tests/Node.antt =====
-- The theorems of the node at concrete inputs.
use cled.Common.{
  List, [], arith, false, find, if◌then◌else◌, is_some, list_eq, ltb, nat_eq, none, refl, some,
  true, ℕ, ◌&&◌, ◌*◌, ◌==◌, ◌∷◌, ◌≡◌, ◌≤◌,
}
use cled.Common.Map
use cled.Lan.Error.{Result, ok, err, wrong_code}
use cled.Lan.Wire.{Message, Roster}
use cled.Lan.Peers.{Peer, PeerStore, is_empty, from_roster, expel, remember_removal}
use cled.Lan.Peers
use cled.Lan.Node.{Node, Conn, register, max_pairing_failures, second}
use cled.Lan.Node.Group.{apply_roster}
use cled.Lan.Node.Crossing.{register_crossing}
use cled.Lan.Node.Guesses.{Attempt, guesses, guesses-le}
use cled.Lan.Node.Trust.{IsTrusted, applies, step, step-IsTrusted}
use cled.Lan.Node.Unsaved.{apply_roster_unsaved}
use cled.Lan.Node.Links.{connected}
use cled.Lan.Peers.Valid.{IsValid}

-- An encoding in which every message is one byte.
abbrev one_byte : Message → Result (List ℕ)
one_byte m = ok (1 ∷ [])

abbrev code : List ℕ
code = b'A' ∷ b'B' ∷ []

-- The device 4, paired with the device 2, waits to pair.
abbrev node : Node
node = record {
  device_id = 4;
  name = [];
  listen_port = 80;
  redial_interval = 5 * second;
  started = 0;
  has_discovery = true;
  announced = none;
  peers = record {
    peers =
        record { device_id = 2; name = []; public_key = 7; paired_at_ms = 1; last_address = none }
        ∷ [];
    removed = [];
    file = none;
  };
  conns = [];
  dialing = [];
  backoff = [];
  pairing = some (record { code = code; expires_at = 100; failures = 1 });
  next_conn_id = 1;
  offline_since = [];
  events = [];
  sent = [];
  spawned = [];
}

abbrev conn_of : ℕ → ℕ → Conn
conn_of id initiator = record { id = id; initiator = initiator }

trusted : is_some (Peers.get node.peers 2) ≡ true
unfolding Peers.get
trusted = refl

register_crossing_example :
    (Map.get (register (register node 2 (conn_of 1 4)).0 2 (conn_of 2 2)).0.conns 2
      ≡ some (if ltb 4 2 then conn_of 1 4 else conn_of 2 2))
    × (Map.get (register (register node 2 (conn_of 2 2)).0 2 (conn_of 1 4)).0.conns 2
        ≡ some (if ltb 4 2 then conn_of 1 4 else conn_of 2 2))
register_crossing_example =
    register_crossing node 2 (conn_of 1 4) (conn_of 2 2) trusted refl refl refl (omega arith)

kept : (register (register node 2 (conn_of 1 4)).0 2 (conn_of 2 2)).1 ≡ true
unfolding register Peers.get
kept = refl

abbrev wrong : Attempt
wrong = record {
  now = 50;
  ended = 51;
  exchange = λ c. err wrong_code;
  fresh = ok (b'C' ∷ []);
  address = none;
  joiner = 8;
  now_ms = 3;
  disk = true;
}

another : (fresh : List ℕ) × (wrong.fresh ≡ ok fresh) × ((fresh == code) ≡ false)
another = (b'C' ∷ [], refl, refl)

guesses-le_example : guesses one_byte code node (wrong ∷ wrong ∷ wrong ∷ []) ≤ max_pairing_failures
guesses-le_example =
    guesses-le one_byte code node (wrong ∷ wrong ∷ wrong ∷ []) (omega arith)
      (another, (another, (another, tt)))

-- The sender 8 has removed the device 2.
abbrev removal_news : Roster
removal_news = record {
  members = [];
  removed =
      record {
        peer = record {
          device_id = 2;
          name = b'a' ∷ [];
          public_key = 7;
          paired_at_ms = 1;
          address = none;
        };
        removed_at_ms = 9;
      }
      ∷ [];
}

-- The same device while the device 2 is connected.
abbrev linked : Node
linked = record node { conns = (2, conn_of 1 4) ∷ [] }

apart :
    (id : ℕ) → (is_some (find (λ (p : Peer). p.device_id == id) node.peers.peers) && false) ≡ false
apart id = ground arith

node-IsValid : IsValid node.peers
node-IsValid = record { peers = (refl, tt); removed = tt; apart = apart; bounded = omega arith }

apply_roster_unsaved_example :
    (Peers.get (apply_roster one_byte linked 8 removal_news false).peers 2 ≡ none)
    × ((apply_roster one_byte linked 8 removal_news false).sent ≡ linked.sent)
    × (connected (apply_roster one_byte linked 8 removal_news false) 2 ≡ true)
    × (connected
          (apply_roster one_byte
            (apply_roster one_byte linked 8 removal_news false)
            8
            removal_news
            true)
          2
        ≡ true)
apply_roster_unsaved_example =
    apply_roster_unsaved one_byte linked 8 8 2 removal_news removal_news true 9 node-IsValid
      (omega arith) refl refl refl (omega arith) refl refl

-- Nothing is connected at first.
node-IsTrusted : IsTrusted node
node-IsTrusted id there = absurd (ground (arith, there))

step-IsTrusted_example : IsTrusted (step one_byte node (applies 8 removal_news))
step-IsTrusted_example = step-IsTrusted one_byte node (applies 8 removal_news) node-IsTrusted
