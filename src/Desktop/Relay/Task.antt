-- ===== src/Desktop/Relay/Task.antt =====
-- `Task::run` of apps/desktop/src-tauri/src/relay.rs: the loop that keeps the connection.
use cled.Common.{
  Bool, List, Option, [], false, min, nat_eq, none, some, true, ℕ, ◌*◌, ◌++◌, ◌+◌, ◌==◌, ◌∷◌,
}
use cled.Common.Utf8.{codes}
use cled.Clipboard.Content.{Chars}
use cled.Desktop.Answer.{UrlCrate}
use cled.Desktop.Relay.{
  RelayStatus, off, needs_sign_in, connecting, Control, Desired, desire_off, desire_sign_in,
  connect, Reporter, Shown, signed_out, set, set_signed_in,
}
use cled.Desktop.Relay

pub data EndKind : Type 0 where
  never_registered dropped replaced unauthorized account_gone : EndKind

pub record Ended : Type 0 where
  pub error : Chars
  pub kind : EndKind

abbrev pub min_retry : ℕ
min_retry = 1

abbrev pub max_retry : ℕ
max_retry = 30

-- The variables of `run`, and what it shares. `discards` counts the access tokens it has thrown away.
pub record Task : Type 0 where
  pub retry : ℕ
  pub rejections : ℕ
  pub control : Control
  pub reporter : Reporter
  pub discards : ℕ

-- How long `idle` (in Session/Idle) waits: not at all, until the desired state changes, or for some time at most.
pub data Wait : Type 0 where
  no_wait until_change : Wait
  at_most : (seconds : ℕ) → Wait

abbrev wait_of : Option ℕ → Wait
wait_of none = until_change
wait_of (some d) = at_most d

-- The first rejection in a row, and the others.
unfoldable pub reject : Task → Bool → Option (Task × Option ℕ)
reject t true = some (record t { rejections = t.rejections + 1; discards = t.discards + 1 }, some 0)
reject t false = some (t, none)

-- `match ended.kind`: what to do before the next attempt and when that is, or nothing where the sign-in
-- is gone.
unfoldable pub retry_in : Task → EndKind → Option (Task × Option ℕ)
retry_in t account_gone = none
retry_in t unauthorized = reject t (t.rejections == 0)
retry_in t replaced = some (t, none)
retry_in t dropped = some (record t { rejections = 0; retry = min_retry }, some min_retry)
retry_in t never_registered = some (t, some t.retry)

-- The error that is shown.
unfoldable pub shown_error : EndKind → Option ℕ → Chars → Chars
shown_error unauthorized none error =
    codes "The relay didn't accept your sign-in. Sign out and sign in again."
shown_error _ _ error = error

-- What follows `idle`.
unfoldable pub after_idle : EndKind → Option ℕ → Task → Task
after_idle never_registered none t = record t { retry = min_retry; rejections = 0 }
after_idle never_registered (some d) t = record t { retry = min (t.retry * 2) max_retry }
after_idle _ none t = record t { retry = min_retry; rejections = 0 }
after_idle _ (some d) t = t

-- What follows the `match`, up to the next turn of the loop.
unfoldable pub conclude : UrlCrate → Task → Ended → Option (Task × Option ℕ) → Task × Wait
conclude c t e none = (
  record t {
    control = set_signed_in c t.control false;
    reporter = record t.reporter { shown = t.reporter.shown ++ signed_out ∷ [] };
  },
  no_wait,
)
conclude c t e (some (t', delay)) =
    let status : RelayStatus = Relay.failed (shown_error e.kind delay e.error) delay in
    (after_idle e.kind delay (record t' { reporter = set t'.reporter status }), wait_of delay)

-- The end of a connection.
unfoldable pub on_ended : UrlCrate → Task → Ended → Task × Wait
on_ended c t e = conclude c t e (retry_in t e.kind)

-- What a session comes to: it ends, or the desired state changes meanwhile.
pub data Outcome : Type 0 where
  ended : Ended → Outcome
  superseded : Outcome

abbrev pub report : Task → RelayStatus → Task
report t status = record t { reporter = set t.reporter status }

unfoldable pub on_outcome : UrlCrate → Task → Outcome → Task × Wait
on_outcome c t (ended e) = on_ended c t e
on_outcome c t superseded = (record t { retry = min_retry; rejections = 0 }, no_wait)

-- The `match` on the desired state.
unfoldable pub follow : UrlCrate → Task → Desired → Outcome → Task × Wait
follow c t desire_off o = (report t off, until_change)
follow c t desire_sign_in o = (report t needs_sign_in, until_change)
follow c t (connect url) o = on_outcome c (report t connecting) o

-- A turn of the loop of `run`, in which a session, if there is one, comes to `o`.
unfoldable pub turn : UrlCrate → Task → Outcome → Task × Wait
turn c t o =
    follow c (record t { control = record t.control { unseen = false } }) t.control.desired o

-- Turns that follow each other.
unfoldable pub turns : UrlCrate → Task → List Outcome → Task × List Wait
turns c t [] = (t, [])
turns c t (o ∷ os) =
    let (t', wait) = turn c t o in let (t'', waits) = turns c t' os in (t'', wait ∷ waits)
