-- ===== src/Clipboard/Service.antt =====
-- crates/cled-clipboard/src/service.rs: the loop of the clipboard thread, and when it checks. Instants
-- are nanoseconds; what the clipboard answers comes with the request. The log is left out.
pub mod Bursts
pub mod Reports
pub mod Requests
use cled.Common.{
  Bool, Option, false, if◌then◌else◌, is_some, min, nat_eq, none, not, option_eq, some, ℕ, ◌&&◌,
  ◌*◌, ◌+◌, ◌==◌,
}
use cled.Clipboard.Content.{ClipboardContent, Chars, Image}
use cled.Clipboard.Error.{Result, done, failed, ClipboardError}
use cled.Clipboard.Snapshot.{Snapshot, empty, content, skipped, Hashed, observe, baseline}

abbrev pub millisecond : ℕ
millisecond = 1000000

abbrev pub notify_debounce : ℕ
notify_debounce = 25 * millisecond

pub record Schedule : Type 0 where
  pub interval : ℕ
  pub next : ℕ

-- `Schedule::new`.
unfoldable new_schedule : ℕ → ℕ → Schedule
new_schedule now interval = record { interval = interval; next = now + interval }

unfoldable pub notified : Schedule → ℕ → Schedule
notified s now = record s { next = min s.next (now + notify_debounce) }

unfoldable pub checked : Schedule → ℕ → Schedule
checked s now = record s { next = now + s.interval }

-- The variables of `run`.
pub record Watch : Type 0 where
  pub last : Option ℕ
  pub last_token : Option ℕ
  pub last_written : Option ClipboardContent
  pub schedule : Schedule

-- A turn of the loop: a request with what the clipboard does for it, or the time of a check with the
-- clipboard's token and content.
pub data Turn : Type 0 where
  reads : Turn
  writes : ClipboardContent → Result (Unit {0}) → Turn
  keeps : Turn
  changed : (now : ℕ) → Turn
  checks : (now : ℕ) → Option ℕ → Result Snapshot → Turn

module _ (hash : Hashed → ℕ) where
  -- The start of `run`.
  unfoldable begin : ℕ → ℕ → Option ℕ → Result Snapshot → Watch
  begin now interval token first = record {
    last = baseline hash none (elim first [ done s ↦ s | failed e ↦ empty ]);
    last_token = token;
    last_written = none;
    schedule = new_schedule now interval;
  }

  -- What a check makes of what it read: the last fingerprint, and what is reported.
  unfoldable pub look : Option ℕ → Result Snapshot → Option ℕ × Option Snapshot
  look last (failed e) = (last, none)
  look last (done s) =
      let (current, new) = observe hash last s in (current, if new then some s else none)

  -- A check: nothing is read when the token tells that nothing changed.
  unfoldable pub check : Watch → ℕ → Option ℕ → Result Snapshot → Watch × Option Snapshot
  check w now token seen =
      let due : Watch = record w { schedule = checked w.schedule now } in
      if is_some token && token == w.last_token
      then (due, none)
      else let (current, report) = look w.last seen in
        (record due { last_token = token; last = current }, report)

  -- The body of the loop, and what it reports to `on_change`.
  unfoldable pub turn : Watch → Turn → Watch × Option Snapshot
  turn w reads = (w, none)
  turn w (writes c (done ok')) = (record w { last_written = some c }, none)
  turn w (writes c (failed e)) = (w, none)
  turn w keeps = (w, none)
  turn w (changed now) = (record w { schedule = notified w.schedule now }, none)
  turn w (checks now token seen) = check w now token seen

-- `keep_after_exit`, where the platform loses content when its process ends, `same` is the equality of
-- contents, and `held` how starting the holder went.
unfoldable pub keep_after_exit :
    Bool
    → (ClipboardContent → ClipboardContent → Bool)
    → Option ClipboardContent
    → Result Snapshot
    → Result Bool
    → Result Bool
keep_after_exit dies same none current held = done false
keep_after_exit dies same (some written) current held =
    if not dies then done false else elim current [
      | failed e ↦ failed e
      | done s ↦
          if elim s [ empty ↦ false | content c ↦ same c written | skipped r ↦ false ]
          then held
          else done false
    ]
