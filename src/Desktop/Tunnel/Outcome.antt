-- ===== src/Desktop/Tunnel/Outcome.antt =====
-- The outcome of `Tunnels::pair` of apps/desktop/src-tauri/src/tunnel.rs: which of the attempts counts.
use cled.Common.{List, Option, [], none, some, ◌∷◌}
use cled.Clipboard.Content.{Chars}
use cled.Lan.Error.{LanError, Result, ok, err, not_pairing}

-- The name of the paired device, or why there is none. `refused` carries the error that is shown.
pub data Outcome : Type 0 where
  paired : Chars → Outcome
  refused : LanError → Outcome
  no_devices no_code : Outcome

-- `failure.unwrap_or_else`.
unfoldable give_up : Option LanError → Outcome
give_up none = no_code
give_up (some e) = refused e

-- The loop over the attempts, in the order in which they end; `none` is one that was cut off.
unfoldable await_all : Option LanError → List (Option (Result Chars)) → Outcome
await_all failure [] = give_up failure
await_all failure (none ∷ results) = await_all failure results
await_all failure (some (ok name) ∷ results) = paired name
await_all failure (some (err not_pairing) ∷ results) = await_all failure results
await_all failure (some (err e) ∷ results) = await_all (some e) results

unfoldable pair_outcome : List (Option (Result Chars)) → Outcome
pair_outcome [] = no_devices
pair_outcome (r ∷ results) = await_all none (r ∷ results)
