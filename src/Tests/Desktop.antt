-- ===== src/Tests/Desktop.antt =====
-- The theorems of the desktop app at concrete inputs.
use cled.Common.{
  Option, [], all, ap, arith, false, if◌then◌else◌, is_some, length, nat_eq, none, refl, some, suc,
  true, zero, ℕ, ◌%◌, ◌*◌, ◌+◌, ◌-◌, ◌/◌, ◌<◌, ◌==◌, ◌^◌, ◌∷◌, ◌≡◌,
}
use native.Mathlib.Nat.{pow-suc}
use cled.Common.Utf8.{codes}
use cled.Clipboard.Content.{Chars}
use cled.Sync.Item.Text.{UuidText, is_graphic}
use cled.Lan.Node.{Node, should_connect, should_dial, is_connected}
use cled.Lan.Peers
use cled.Desktop.Answer.{UrlCrate}
use cled.Desktop.Settings.{relay}
use cled.Desktop.Tunnel.{
  Key, key_eq, Tunnel, Tunnels, nothing, kind_data, pump, encode, on_pumped, on_frame, has, dial,
  new_tunnels,
}
use cled.Desktop.Tunnel.Delivery.{on_frame-on_pumped}
use cled.Desktop.Tunnel.Dialed.{dial_covers}
use cled.Desktop.Relay.{Control, connect, join_status, connected}
use cled.Desktop.Relay.Task.{
  Task, until_change, at_most, dropped, unauthorized, turn, turns, report, never_registered,
}
use cled.Desktop.Relay.Pacing.{ends, turns_rejected}
use cled.Desktop.Relay.Sound.{
  IsSound, IsShort, here, next, turns_once, registers, started, Reach-started-IsSound,
}
use cled.Desktop.Relay.Roles.{join_status_roles}
use cled.Desktop.Auth.{signed_out, signed_in, StoredSession, TokenResponse, load, signing_in}
use cled.Desktop.Auth.Commands.{App}
use cled.Desktop.Auth.Superseded.{signed_out_meanwhile, signed_out_meanwhile_saved}

-- Ids as 36 letters, the lowest digit first.
abbrev letters : ℕ → ℕ → Chars
letters zero id = []
letters (suc w) id = (b'a' + id % 16) ∷ letters w (id / 16)

abbrev of_letters : Chars → ℕ
of_letters [] = 0
of_letters (c ∷ cs) = (c - b'a') + 16 * of_letters cs

pub length-letters : (w id : ℕ) → length (letters w id) ≡ w
length-letters zero id = refl
length-letters (suc w) id = ap suc (length-letters w (id / 16))

pub letters-graphic : (w id : ℕ) → all is_graphic (letters w id) ≡ true
letters-graphic zero id = refl
letters-graphic (suc w) id = ground (arith, letters-graphic w (id / 16))

of_letters-letters : (w id : ℕ) → id < 16 ^ w → of_letters (letters w id) ≡ id
of_letters-letters zero id h = omega arith
of_letters-letters (suc w) id h =
    omega (arith, of_letters-letters w (id / 16) (omega (arith, pow-suc 16 w)))

pub parse_letters : Chars → Option ℕ
parse_letters t = if length t == 36 then some (of_letters t) else none

pub parse_letters-letters : (id : ℕ) → id < 2 ^ 128 → parse_letters (letters 36 id) ≡ some id
unfolding parse_letters
parse_letters-letters id h =
    ground (arith, length-letters 36 id, of_letters-letters 36 id (omega arith))

abbrev pub uuid : UuidText
uuid = record {
  display = letters 36;
  parse_str = parse_letters;
  length-display = length-letters 36;
  display-graphic = letters-graphic 36;
  parse_str-display = parse_letters-letters;
}

abbrev key : Key
key = record { peer = 9; id = 1; opened_here = true }

abbrev idle_tunnel : Tunnel
idle_tunnel = record { to_session = (5 ∷ []) ∷ []; listening = true }

abbrev near : Tunnels
near = record { next_id = 2; table = (key, idle_tunnel) ∷ []; pumped = [] }

abbrev far_key : Key
far_key = record { peer = 7; id = 1; opened_here = false }

abbrev far : Tunnels
far = record { next_id = 1; table = (far_key, idle_tunnel) ∷ []; pumped = [] }

on_frame-on_pumped_example :
    ((pump near key 2 (1 ∷ 2 ∷ 3 ∷ [])).pumped
      ≡ record { key = key; bytes = some (1 ∷ 2 ∷ []) } ∷ [])
    × (on_pumped uuid near (record { key = key; bytes = some (1 ∷ 2 ∷ []) })
        ≡ (near, some (encode uuid kind_data key (1 ∷ 2 ∷ []))))
    × (on_frame uuid far (encode uuid kind_data (record key { peer = 7 }) (1 ∷ 2 ∷ [])) ≡ (
      record far {
        table =
            (far_key, record { to_session = (5 ∷ []) ∷ (1 ∷ 2 ∷ []) ∷ []; listening = true }) ∷ [];
      },
      nothing,
    ))
on_frame-on_pumped_example =
    on_frame-on_pumped uuid near far key 7 2 (1 ∷ 2 ∷ 3 ∷ []) idle_tunnel idle_tunnel refl refl refl
      (omega arith) (omega arith) (omega arith) (omega arith)

abbrev pub small_node : Node
small_node = record {
  device_id = 1;
  name = [];
  listen_port = 80;
  redial_interval = 5;
  started = 0;
  has_discovery = true;
  announced = none;
  peers = record {
    peers =
        record { device_id = 2; name = []; public_key = 7; paired_at_ms = 1; last_address = none }
        ∷ [];
    removed = [];
    file = none;
  };
  conns = [];
  dialing = [];
  backoff = [];
  pairing = none;
  next_conn_id = 1;
  offline_since = [];
  events = [];
  sent = [];
  spawned = [];
}

small_node_connects : should_connect small_node 2 0 ≡ true
unfolding should_connect should_dial is_connected Peers.get
small_node_connects = refl

dial_covers_example :
    (has (dial uuid new_tunnels small_node 0).0 2 ≡ true)
    × (dial uuid (dial uuid new_tunnels small_node 0).0 small_node 0
        ≡ ((dial uuid new_tunnels small_node 0).0, [], []))
dial_covers_example = dial_covers uuid new_tunnels small_node 0 2 small_node_connects

abbrev url_crate : UrlCrate
url_crate = record {
  parse = λ t. none;
  set_scheme = λ url scheme. some (record url { scheme = scheme });
  set_path = λ url path. record url { path = path };
  into = λ url. url.path;
}

abbrev control : Control
control = record {
  inputs = record { mode = relay; relay_url = codes "https://a"; signed_in = true };
  desired = connect (codes "wss://a/relay");
  unseen = true;
}

turns_rejected_example :
    (turns url_crate (started control) (
      ends unauthorized []
      ∷ ends never_registered (codes "a")
      ∷ ends never_registered (codes "b")
      ∷ ends unauthorized []
      ∷ [])).1
    ≡ at_most 0 ∷ at_most 1 ∷ at_most 2 ∷ until_change ∷ []
turns_rejected_example =
    turns_rejected url_crate (started control) (codes "wss://a/relay") []
      (codes "a" ∷ codes "b" ∷ []) [] refl refl

abbrev after_drop : Task
after_drop = (turn url_crate (started control) (ends dropped [])).0

Reach-started-IsSound_example :
    IsSound (report after_drop connected)
    × IsShort (turn url_crate (report after_drop connected) (ends unauthorized [])).1
Reach-started-IsSound_example =
    Reach-started-IsSound url_crate control (report after_drop connected) (ends unauthorized [])
      (next (next here (turns_once (started control) (ends dropped []))) (registers after_drop))

join_status_roles_example :
    ((join_status 3 (5 ∷ 8 ∷ []) (8 ∷ [])).show_code ≡ true)
    × ((join_status 5 (1 ∷ 3 ∷ []) []).enter_code ≡ true)
join_status_roles_example =
    join_status_roles 3 5 (5 ∷ 8 ∷ []) (8 ∷ []) (1 ∷ 3 ∷ []) [] (omega arith) refl refl refl refl

abbrev stored : StoredSession
stored = record {
  issuer = codes "https://i";
  client_id = [];
  token_endpoint = [];
  revocation_endpoint = none;
  refresh_token = codes "r";
  account = record { user_id = codes "u"; email = none; name = none };
}

abbrev tokens : TokenResponse
tokens = record {
  access_token = codes "t";
  refresh_token = some (codes "r");
  expires_in = some 60;
  id_token = none;
}

abbrev app : App
app = record {
  auth = record {
    session = none;
    status = signing_in;
    cancel_sign_in = some 1;
    cancelled = [];
    generation = 1;
    has_path = true;
    file = none;
  };
  control = control;
  emitted = [];
  revocations = [];
}

signed_out_meanwhile_saved_example :
    ((signed_out_meanwhile url_crate app tokens stored 5).auth.status ≡ signed_out)
    × (is_some (signed_out_meanwhile url_crate app tokens stored 5).auth.session ≡ true)
    × ((load true (signed_out_meanwhile url_crate app tokens stored 5).auth.file).status
        ≡ signed_in stored.account)
signed_out_meanwhile_saved_example = signed_out_meanwhile_saved url_crate app tokens stored 5 refl
