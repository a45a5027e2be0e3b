-- ===== src/Clipboard/Platform/Replies.antt =====
-- How long `Targets::targets` of crates/cled-clipboard/src/platform/linux/x11.rs waits.
use cled.Common.{
  Bool-cases, List, [], arith, inl, inr, is_some, leb, nat_eq, refl, true, ℕ, ◌*◌, ◌+◌, ◌<◌, ◌==◌,
  ◌∷◌, ◌≡◌, ◌≤◌,
}
use cled.Clipboard.Error.{Result, done, failed}
use cled.Clipboard.Platform.Linux.{
  Poll, selection_notify, other_event, nothing, poll_failed, await_targets, targets, reply_timeout,
}

-- Between two polls that give nothing the thread sleeps for 2 ms: the times of a list of polls from `time` on.
abbrev pub IsSpaced : ℕ → List Poll → Type 0
IsSpaced time [] = Unit {0}
IsSpaced time (nothing now ∷ polls) = (time ≤ now) × IsSpaced (now + 2) polls
IsSpaced time (selection_notify requestor property reply ∷ polls) = IsSpaced time polls
IsSpaced time (other_event ∷ polls) = IsSpaced time polls
IsSpaced time (poll_failed ∷ polls) = IsSpaced time polls

-- How many polls give nothing.
abbrev idle_polls : List Poll → ℕ
idle_polls [] = 0
idle_polls (nothing now ∷ polls) = idle_polls polls + 1
idle_polls (selection_notify requestor property reply ∷ polls) = idle_polls polls
idle_polls (other_event ∷ polls) = idle_polls polls
idle_polls (poll_failed ∷ polls) = idle_polls polls

answers_by_deadline :
    (window deadline time : ℕ) (polls : List Poll)
    → IsSpaced time polls
    → deadline + 2 ≤ time + 2 * idle_polls polls
    → 1 ≤ idle_polls polls
    → is_some (await_targets window deadline polls) ≡ true
unfolding await_targets
answers_by_deadline window deadline time [] spaced late some_idle = absurd (omega arith)
answers_by_deadline window deadline time (selection_notify requestor property reply ∷ polls) spaced
      late some_idle =
    elim (Bool-cases (requestor == window)) [
      | inl ours ↦ rw (await_targets, ours) refl
      | inr foreign ↦
          rw (await_targets, foreign)
            (answers_by_deadline window deadline time polls spaced late some_idle)
    ]
answers_by_deadline window deadline time (other_event ∷ polls) spaced late some_idle =
    answers_by_deadline window deadline time polls spaced late some_idle
answers_by_deadline window deadline time (poll_failed ∷ polls) spaced late some_idle = refl
answers_by_deadline window deadline time (nothing now ∷ polls) spaced late some_idle =
    elim (Bool-cases (leb deadline now)) [
      | inl over ↦ rw (await_targets, over) refl
      | inr early ↦
          let before : now < deadline = ground arith in
          rw (await_targets, early)
            (answers_by_deadline window deadline (now + 2) polls spaced.1 (omega (arith, spaced.0))
              (omega (arith, spaced.0)))
    ]

-- Asking for the formats of the clipboard ends: once 126 polls have given nothing, which takes at least 250 ms, there
-- is an answer or an error, whatever the owner of the clipboard does and whatever else comes in between.
pub targets_answers :
    (requested : Result (Unit {0})) (window now : ℕ) (polls : List Poll)
    → IsSpaced now polls
    → 126 ≤ idle_polls polls
    → is_some (targets requested window now polls) ≡ true
unfolding targets
targets_answers (failed e) window now polls spaced enough = refl
targets_answers (done sent) window now polls spaced enough =
    answers_by_deadline window (now + reply_timeout) now polls spaced (omega arith) (omega arith)
