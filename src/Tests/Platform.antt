-- ===== src/Tests/Platform.antt =====
-- The theorems of the operating systems' clipboards at concrete inputs.
use cled.Common.{
  List, Option, [], arith, is_some, length, list_eq, nat_eq, none, refl, some, suc, true, zero, ℕ,
  ◌+◌, ◌∷◌, ◌≡◌,
}
use cled.Common.Utf8.{codes}
use cled.Clipboard.Content.{Chars}
use cled.Clipboard.Error.{done}
use cled.Clipboard.Snapshot.{skipped, sensitive}
use cled.Clipboard.Platform.Linux.{Poll, nothing, other_event, pasted, targets}
use cled.Clipboard.Platform.Native.{on_wayland, clipboard_read, change_token}
use cled.Clipboard.Platform.Private.{by_name, read-IsMarked}
use cled.Clipboard.Platform.Replies.{IsSpaced, targets_answers}

abbrev measure : List Chars → Option (List ℕ) → ℕ
measure names none = 0
measure names (some bytes) = length bytes + 1

abbrev password_formats : List Chars
password_formats = codes "text/plain" ∷ codes "x-kde-passwordManagerHint" ∷ []

read-IsMarked_example :
    (clipboard_read
        (on_wayland (pasted password_formats))
        (done (some (codes "secret")))
        (done none)
      ≡ some (done (skipped sensitive)))
    × (change_token measure (on_wayland (pasted password_formats)) none (some (1 ∷ []))
        ≡ change_token measure (on_wayland (pasted password_formats)) none (some (1 ∷ 2 ∷ [])))
read-IsMarked_example =
    read-IsMarked measure (on_wayland (pasted password_formats)) none (some (1 ∷ []))
      (some (1 ∷ 2 ∷ [])) (done (some (codes "secret"))) (done none) (by_name password_formats refl)

-- Polls every 2 ms that give nothing.
abbrev silence : ℕ → ℕ → List Poll
silence zero time = other_event ∷ []
silence (suc n) time = nothing time ∷ silence n (time + 2)

silence-IsSpaced : (n time : ℕ) → IsSpaced time (silence n time)
silence-IsSpaced zero time = tt
silence-IsSpaced (suc n) time = (omega arith, silence-IsSpaced n (time + 2))

targets_answers_example : is_some (targets (done tt) 5 1000 (silence 126 1000)) ≡ true
targets_answers_example =
    targets_answers (done tt) 5 1000 (silence 126 1000) (silence-IsSpaced 126 1000) (omega arith)
