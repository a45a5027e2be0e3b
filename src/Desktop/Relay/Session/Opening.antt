-- ===== src/Desktop/Relay/Session/Opening.antt =====
-- The first part of `Task::session` of apps/desktop/src-tauri/src/relay.rs: connecting and registering.
use cled.Common.{
  List, Option, [], if◌then◌else◌, list_eq, nat_eq, none, some, zero, ◌++◌, ◌==◌, ◌∷◌,
}
use cled.Common.Utf8.{codes}
use cled.Clipboard.Content.{Chars}
use cled.Desktop.Auth.{Token, token, no_token, no_sign_in, unavailable}
use cled.Desktop.Relay.Task.{Ended, never_registered, unauthorized, account_gone}
use cled.Desktop.Relay.Session.{ServerMessage, registered, error, Link}

-- How connecting to the relay ends: the socket, an error described, or no answer in time.
pub data Connected : Type 0 where
  socket : Connected
  refused : (described : Chars) → Connected
  timed_out : Connected

-- What arrives while waiting for a message.
pub data Arrival : Type 0 where
  text : Chars → Arrival
  closed : Arrival
  control : Arrival
  broken : (error : Chars) → Arrival

pub data Awaited : Type 0 where
  got : ServerMessage → Awaited
  bad : (error : Chars) → Awaited
  too_late : Awaited

abbrev read_or_bad : Option ServerMessage → Awaited
read_or_bad none = bad (codes "The relay answered unexpectedly.")
read_or_bad (some m) = got m

-- `next_server_message` under a timeout, over what arrives in time.
unfoldable next_server_message : (Chars → Option ServerMessage) → List Arrival → Awaited
next_server_message from_str [] = too_late
next_server_message from_str (text t ∷ arrivals) = read_or_bad (from_str t)
next_server_message from_str (closed ∷ arrivals) = bad (codes "The relay closed the connection.")
next_server_message from_str (control ∷ arrivals) = next_server_message from_str arrivals
next_server_message from_str (broken e ∷ arrivals) = bad (codes "Lost the connection: " ++ e)

abbrev failed_with : Chars → Option Ended
failed_with why = some (record { error = why; kind = never_registered })

-- The answer to the registration: nothing ends the session but a failure.
unfoldable on_registration : Awaited → Option Ended
on_registration (got registered) = none
on_registration (got (error code why)) =
    if code == codes "unauthorized"
    then some
        (record { error = codes "The relay didn't accept your sign-in."; kind = unauthorized })
    else failed_with (codes "The relay refused this device: " ++ why)
on_registration (got _) = failed_with (codes "The relay answered unexpectedly.")
on_registration (bad why) = failed_with why
on_registration too_late = failed_with (codes "The relay didn't confirm the registration.")

-- Sending the registration, where a socket that loses the first frame has failed.
unfoldable on_socket : Link → Awaited → Option Ended
on_socket (some (zero, why)) awaited =
    failed_with (codes "Lost the connection while registering: " ++ why)
on_socket _ awaited = on_registration awaited

unfoldable on_connected : Connected → Link → Awaited → Option Ended
on_connected (refused described) link awaited = failed_with described
on_connected timed_out link awaited = failed_with (codes "The relay didn't answer in time.")
on_connected socket link awaited = on_socket link awaited

-- `session` up to the registration. No end is a session that is registered.
unfoldable open_session : Token → Connected → Link → Awaited → Option Ended
open_session (no_token no_sign_in) connected link awaited =
    some (record { error = codes "Signed out."; kind = account_gone })
open_session (no_token (unavailable why)) connected link awaited = failed_with why
open_session (token access) connected link awaited = on_connected connected link awaited
