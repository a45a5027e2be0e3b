-- ===== src/Desktop/Relay/Pacing.antt =====
-- How often apps/desktop/src-tauri/src/relay.rs tries again.
use cled.Common.{
  List, [], ap, false, map, min, nat_eq, some, ℕ, ◌*◌, ◌++◌, ◌+◌, ◌==◌, ◌∙◌, ◌∷◌, ◌≡◌,
}
use cled.Clipboard.Content.{Chars}
use cled.Desktop.Answer.{UrlCrate}
use cled.Desktop.Relay.{RelayStatus, connecting, Desired, connect, set, Control}
use cled.Desktop.Relay
use cled.Desktop.Relay.Task.{
  EndKind, never_registered, unauthorized, Task, Wait, until_change, at_most, max_retry, reject,
  retry_in, shown_error, after_idle, conclude, on_ended, Outcome, ended, report, on_outcome, follow,
  turn, turns,
}

-- The task when it has looked at the desired state and shows that it connects.
abbrev attempting : Task → Task
attempting t = report (record t { control = record t.control { unseen = false } }) connecting

abbrev pub ends : EndKind → Chars → Outcome
ends kind error = ended (record { error = error; kind = kind })

turn-connect :
    (c : UrlCrate) (t : Task) (url : Chars) (o : Outcome)
    → t.control.desired ≡ connect url
    → turn c t o ≡ on_outcome c (attempting t) o
unfolding turn follow
turn-connect c t url o h =
    ap (λ d. follow c (record t { control = record t.control { unseen = false } }) d o) h

-- The task after an attempt that did not get to register.
abbrev missed : Task → Chars → Task
missed t error = record t {
  retry = min (t.retry * 2) max_retry;
  control = record t.control { unseen = false };
  reporter = set (set t.reporter connecting) (Relay.failed error (some t.retry));
}

turn-missed :
    (c : UrlCrate) (t : Task) (url error : Chars)
    → t.control.desired ≡ connect url
    → turn c t (ends never_registered error) ≡ (missed t error, at_most t.retry)
unfolding on_outcome on_ended conclude retry_in shown_error after_idle
turn-missed c t url error h = turn-connect c t url _ h

-- The task after the first rejection in a row.
abbrev rejected : Task → Chars → Task
rejected t error = record t {
  rejections = t.rejections + 1;
  discards = t.discards + 1;
  control = record t.control { unseen = false };
  reporter = set (set t.reporter connecting) (Relay.failed error (some 0));
}

turn-rejected :
    (c : UrlCrate) (t : Task) (url error : Chars)
    → t.control.desired ≡ connect url
    → t.rejections ≡ 0
    → turn c t (ends unauthorized error) ≡ (rejected t error, at_most 0)
unfolding on_outcome on_ended retry_in conclude reject shown_error after_idle
turn-rejected c t url error h zero_yet =
    turn-connect c t url _ h
    ∙ ap
        (λ b.
          conclude c (attempting t) (record { error = error; kind = unauthorized })
            (reject (attempting t) b))
        (ap (λ n. n == 0) zero_yet)

turn-rejected_again :
    (c : UrlCrate) (t : Task) (url error : Chars)
    → t.control.desired ≡ connect url
    → t.rejections ≡ 1
    → (turn c t (ends unauthorized error)).1 ≡ until_change
unfolding on_outcome on_ended retry_in conclude reject
turn-rejected_again c t url error h one =
    ap (λ r. r.1) (turn-connect c t url _ h)
    ∙ ap
        (λ b.
          (conclude c (attempting t) (record { error = error; kind = unauthorized })
            (reject (attempting t) b)).1)
        (ap (λ n. n == 0) one)

-- The delays of attempts that fail one after the other, the first one after `delay`.
abbrev backoffs : ℕ → List Chars → List Wait
backoffs delay [] = []
backoffs delay (e ∷ es) = at_most delay ∷ backoffs (min (delay * 2) max_retry) es

abbrev misses : List Chars → List Outcome
misses = map (ends never_registered)

turns-misses :
    (c : UrlCrate) (t : Task) (url : Chars) (es : List Chars) (error : Chars)
    → t.control.desired ≡ connect url
    → t.rejections ≡ 1
    → (turns c t (misses es ++ ends unauthorized error ∷ [])).1
      ≡ backoffs t.retry es ++ until_change ∷ []
unfolding turns
turns-misses c t url [] error h one = ap (λ w. w ∷ []) (turn-rejected_again c t url error h one)
turns-misses c t url (e ∷ es) error h one =
    ap (λ r. r.1 ∷ (turns c r.0 (misses es ++ ends unauthorized error ∷ [])).1)
      (turn-missed c t url e h)
    ∙ ap (λ ws. at_most t.retry ∷ ws) (turns-misses c (missed t e) url es error h one)

-- While the app is to be connected, a rejected attempt that is the first since the last connection is
-- followed by another at once. Each attempt after it that does not get to register is followed by one more,
-- after a delay that doubles up to 30 seconds; and a second rejection ends the attempts until what is
-- desired changes, however many failed in between.
pub turns_rejected :
    (c : UrlCrate) (t : Task) (url first : Chars) (es : List Chars) (second : Chars)
    → t.control.desired ≡ connect url
    → t.rejections ≡ 0
    → (turns c t (ends unauthorized first ∷ (misses es ++ ends unauthorized second ∷ []))).1
      ≡ at_most 0 ∷ (backoffs t.retry es ++ until_change ∷ [])
unfolding turns
turns_rejected c t url first es second h zero_yet =
    ap (λ r. r.1 ∷ (turns c r.0 (misses es ++ ends unauthorized second ∷ [])).1)
      (turn-rejected c t url first h zero_yet)
    ∙ ap (λ ws. at_most 0 ∷ ws)
        (turns-misses c (rejected t first) url es second h (ap (λ n. n + 1) zero_yet))
