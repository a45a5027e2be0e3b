-- ===== src/Clipboard/Service/Requests.antt =====
-- `ClipboardService` of crates/cled-clipboard/src/service.rs: the requests that are sent to the clipboard
-- thread, and the replies.
pub mod HandedOff
use cled.Common.{Bool, List, Option, [], nat_eq, none, some, ℕ, ◌∷◌}
use cled.Clipboard.Content.{ClipboardContent}
use cled.Clipboard.Error.{Result, failed, service_stopped}
use cled.Clipboard.Snapshot.{Snapshot, Hashed}
use cled.Clipboard.Service.{Watch, reads, writes, keeps, changed, checks, turn, keep_after_exit}

-- What the thread takes from its channel, or the time of a check, with what the clipboard answers, and how
-- starting a holder went.
pub data Request : Type 0 where
  read : Result Snapshot → Request
  write : ClipboardContent → Result (Unit {0}) → Request
  keep : (current : Result Snapshot) → (held : Result Bool) → Request
  notice : (now : ℕ) → Request
  check_due : (now : ℕ) → Option ℕ → Result Snapshot → Request
  stop : Request

pub data Reply : Type 0 where
  snapshot : Result Snapshot → Reply
  written : Result (Unit {0}) → Reply
  kept : Result Bool → Reply

-- The calls once the thread has stopped, or while their request waits when it does.
unfoldable pub refuse : List Request → List Reply
refuse [] = []
refuse (read r ∷ rest) = snapshot (failed service_stopped) ∷ refuse rest
refuse (write c r ∷ rest) = written (failed service_stopped) ∷ refuse rest
refuse (keep current held ∷ rest) = kept (failed service_stopped) ∷ refuse rest
refuse (notice now ∷ rest) = refuse rest
refuse (check_due now token seen ∷ rest) = refuse rest
refuse (stop ∷ rest) = refuse rest

module _ (hash : Hashed → ℕ) (dies : Bool) (same : ClipboardContent → ClipboardContent → Bool) where
  -- The turn of the loop that a request is, but for `stop`.
  abbrev pub turn_of : Watch → Request → Watch
  turn_of w (read r) = (turn hash w reads).0
  turn_of w (write c r) = (turn hash w (writes c r)).0
  turn_of w (keep current held) = (turn hash w keeps).0
  turn_of w (notice now) = (turn hash w (changed now)).0
  turn_of w (check_due now token seen) = (turn hash w (checks now token seen)).0
  turn_of w stop = w

  -- What a turn replies.
  unfoldable pub reply : Watch → Request → Option Reply
  reply w (read r) = some (snapshot r)
  reply w (write c r) = some (written r)
  reply w (keep current held) = some (kept (keep_after_exit dies same w.last_written current held))
  reply w (notice now) = none
  reply w (check_due now token seen) = none
  reply w stop = none

  abbrev pub cons_if_some {ℓ} : {A : Type ℓ} → Option A → List A → List A
  cons_if_some none as' = as'
  cons_if_some (some a) as' = a ∷ as'

  -- The loop, and the calls that wait for a reply.
  unfoldable pub serve : Watch → List Request → List Reply
  serve w [] = []
  serve w (stop ∷ rest) = refuse rest
  serve w (r ∷ rest) = cons_if_some (reply w r) (serve (turn_of w r) rest)
