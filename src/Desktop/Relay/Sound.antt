-- ===== src/Desktop/Relay/Sound.antt =====
-- What holds of the connection task of apps/desktop/src-tauri/src/relay.rs at all times.
use cled.Common.{
  Bool, Bool-cases, [], ap, arith, false, inl, inr, nat_eq, refl, true, ◌==◌, ◌||◌, ◌≡◌, ◌≤◌,
}
use cled.Clipboard.Content.{Chars}
use cled.Desktop.Answer.{UrlCrate}
use cled.Desktop.Relay.{
  RelayStatus, connecting, connected, off, needs_sign_in, status_beq, JoinStatus, no_join, join_beq,
  Reporter, set, set_join, Inputs, Control, Desired, connect, desire_off, desire_sign_in, store,
}
use cled.Desktop.Relay.{update}
use cled.Desktop.Relay.Task.{
  EndKind, never_registered, dropped, replaced, unauthorized, account_gone, Task, Wait, no_wait,
  until_change, at_most, min_retry, max_retry, reject, retry_in, after_idle, conclude, on_ended,
  Outcome, ended, superseded, report, on_outcome, follow, turn,
}

-- Nothing is asked of the user about devices that are not paired, unless the relay is connected.
abbrev IsQuiet : Reporter → Type 0
IsQuiet r = (status_beq r.status connected || join_beq r.join no_join) ≡ true

pub record IsSound (t : Task) : Type 0 where
  pub at_least : min_retry ≤ t.retry
  pub not_above : t.retry ≤ max_retry
  pub few : t.rejections ≤ 1
  pub quiet : IsQuiet t.reporter

set_join-no_join : (r : Reporter) → join_beq (set_join r no_join).join no_join ≡ true
unfolding set_join
set_join-no_join r = ground arith

set_join-IsQuiet : (r : Reporter) → IsQuiet (set_join r no_join)
set_join-IsQuiet r = ground (arith, set_join-no_join r)

store-IsQuiet :
    (r : Reporter) (status : RelayStatus)
    → (status_beq status connected || join_beq r.join no_join) ≡ true
    → IsQuiet r
    → IsQuiet (store r status)
unfolding store
store-IsQuiet r status h q = elim (Bool-cases (status_beq r.status status)) [
  | inl same ↦ rw (store, same) q
  | inr new ↦ rw (store, new) h
]

set-IsQuiet : (r : Reporter) (status : RelayStatus) → IsQuiet r → IsQuiet (set r status)
unfolding set
set-IsQuiet r status q = elim (Bool-cases (status_beq status connected)) [
  | inl on ↦ rw (set, on) (store-IsQuiet r status (ground (arith, on)) q)
  | inr away ↦
      rw (set, away)
        (store-IsQuiet (set_join r no_join) status (ground (arith, set_join-no_join r))
          (set_join-IsQuiet r))
]

-- A wait that has an end takes 30 seconds at most.
abbrev pub IsShort : Wait → Type 0
IsShort no_wait = Unit {0}
IsShort until_change = Unit {0}
IsShort (at_most d) = d ≤ max_retry

report-IsSound : (t : Task) (status : RelayStatus) → IsSound t → IsSound (report t status)
report-IsSound t status h = record {
  at_least = h.at_least;
  not_above = h.not_above;
  few = h.few;
  quiet = set-IsQuiet t.reporter status h.quiet;
}

-- What holds after a turn.
abbrev Holds : Task × Wait → Type 0
Holds r = IsSound r.0 × IsShort r.1

module _ (c : UrlCrate) (t : Task) (h : IsSound t) where
  reject-Holds :
      (error : Chars) (first : Bool)
      → (t.rejections == 0) ≡ first
      → Holds (conclude c t (record { error = error; kind = unauthorized }) (reject t first))
  unfolding conclude reject after_idle
  reject-Holds error true e = (
    record {
      at_least = h.at_least;
      not_above = h.not_above;
      few = ground (arith, e);
      quiet = set-IsQuiet t.reporter _ h.quiet;
    },
    omega arith,
  )
  reject-Holds error false e = (
    record {
      at_least = omega arith;
      not_above = omega arith;
      few = omega arith;
      quiet = set-IsQuiet t.reporter _ h.quiet;
    },
    tt,
  )

  on_ended-Holds :
      (error : Chars) (kind : EndKind)
      → Holds (on_ended c t (record { error = error; kind = kind }))
  unfolding on_ended retry_in conclude after_idle
  on_ended-Holds error never_registered = (
    record {
      at_least = omega (arith, h.at_least);
      not_above = omega arith;
      few = h.few;
      quiet = set-IsQuiet t.reporter _ h.quiet;
    },
    h.not_above,
  )
  on_ended-Holds error dropped = (
    record {
      at_least = omega arith;
      not_above = omega arith;
      few = omega arith;
      quiet = set-IsQuiet t.reporter _ h.quiet;
    },
    omega arith,
  )
  on_ended-Holds error replaced = (
    record {
      at_least = omega arith;
      not_above = omega arith;
      few = omega arith;
      quiet = set-IsQuiet t.reporter _ h.quiet;
    },
    tt,
  )
  on_ended-Holds error unauthorized = reject-Holds error (t.rejections == 0) refl
  on_ended-Holds error account_gone =
      (record { at_least = h.at_least; not_above = h.not_above; few = h.few; quiet = h.quiet }, tt)

  on_outcome-Holds : (o : Outcome) → Holds (on_outcome c t o)
  unfolding on_outcome
  on_outcome-Holds (ended e) = on_ended-Holds e.error e.kind
  on_outcome-Holds superseded = (
    record { at_least = omega arith; not_above = omega arith; few = omega arith; quiet = h.quiet },
    tt,
  )

follow-Holds :
    (c : UrlCrate) (t : Task) (d : Desired) (o : Outcome) → IsSound t → Holds (follow c t d o)
unfolding follow
follow-Holds c t desire_off o h = (report-IsSound t off h, tt)
follow-Holds c t desire_sign_in o h = (report-IsSound t needs_sign_in h, tt)
follow-Holds c t (connect url) o h =
    on_outcome-Holds c (report t connecting) (report-IsSound t connecting h) o

turn-Holds : (c : UrlCrate) (t : Task) (o : Outcome) → IsSound t → Holds (turn c t o)
unfolding turn
turn-Holds c t o h =
    follow-Holds c (record t { control = record t.control { unseen = false } }) t.control.desired o
      (record { at_least = h.at_least; not_above = h.not_above; few = h.few; quiet = h.quiet })

-- The steps of the app that reach the task: a turn of its loop, the registration of a session, a list of
-- devices from a relay that is connected, and a change of the settings or the sign-in.
pub data Step (c : UrlCrate) : Task → Task → Type 0 where
  turns_once : (t : Task) (o : Outcome) → Step c t (turn c t o).0
  registers : (t : Task) → Step c t (report t connected)
  joins :
      (t : Task) (j : JoinStatus)
      → t.reporter.status ≡ connected
      → Step c t (record t { reporter = set_join t.reporter j })
  follows :
      (t : Task) (change : Inputs → Inputs)
      → Step c t (record t { control = update c t.control change })

pub data Reach (c : UrlCrate) (t : Task) : Task → Type 0 where
  here : Reach c t t
  next : {u v : Task} → Reach c t u → Step c u v → Reach c t v

-- A task when it starts.
abbrev pub started : Control → Task
started control = record {
  retry = min_retry;
  rejections = 0;
  control = control;
  reporter = record { status = off; join = no_join; shown = [] };
  discards = 0;
}

set_join-status : (r : Reporter) (j : JoinStatus) → (set_join r j).status ≡ r.status
unfolding set_join
set_join-status r j = ground arith

Step-IsSound : (c : UrlCrate) {t u : Task} → Step c t u → IsSound t → IsSound u
Step-IsSound c (turns_once t o) h = (turn-Holds c t o h).0
Step-IsSound c (registers t) h = report-IsSound t connected h
Step-IsSound c (joins t j on) h = record {
  at_least = h.at_least;
  not_above = h.not_above;
  few = h.few;
  quiet = ground (arith, set_join-status t.reporter j, ap (λ s. status_beq s connected) on);
}
Step-IsSound c (follows t change) h = record {
  at_least = h.at_least;
  not_above = h.not_above;
  few = h.few;
  quiet = h.quiet;
}

Reach-IsSound : (c : UrlCrate) {t u : Task} → IsSound t → Reach c t u → IsSound u
Reach-IsSound c h here = h
Reach-IsSound c h (next r s) = Step-IsSound c s (Reach-IsSound c h r)

started-IsSound : (control : Control) → IsSound (started control)
started-IsSound control = record {
  at_least = omega arith;
  not_above = omega arith;
  few = omega arith;
  quiet = refl;
}

-- Whatever happens after the start, in any order: the next delay is 1 to 30 seconds, no more than one
-- rejection is counted, no pairing is asked of the user but while the relay is connected, and whatever the
-- session of the next turn comes to, the task waits at most 30 seconds or until what is desired changes.
pub Reach-started-IsSound :
    (c : UrlCrate) (control : Control) (t : Task) (o : Outcome)
    → Reach c (started control) t
    → IsSound t × IsShort (turn c t o).1
Reach-started-IsSound c control t o r =
    let h : IsSound t = Reach-IsSound c (started-IsSound control) r in (h, (turn-Holds c t o h).1)
