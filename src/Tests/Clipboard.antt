-- ===== src/Tests/Clipboard.antt =====
-- The theorems of the clipboard thread at concrete inputs.
use cled.Common.{
  Bool, List, [], false, length, list_eq, nat_eq, none, option_eq, refl, some, true, ℕ, ◌++◌, ◌==◌,
  ◌∷◌, ◌≡◌,
}
use cled.Clipboard.Holder.HandOff.{hold_from_stdin-encode}
use cled.Clipboard.Holder.{watch as own_reports, hold_from_stdin, encode, released}
use cled.Clipboard.Content.{ClipboardContent, text, Chars}
use cled.Clipboard.Error.{done, failed, busy}
use cled.Clipboard.Snapshot.{
  content, Hashed, hashed_text, hashed_image, hashed_reason, RawImage, read, empty,
}
use cled.Clipboard.Reading.{IsAllowed, read-IsAllowed}
use cled.Clipboard.Service.{Watch, Schedule, Turn, checks, keep_after_exit, turn}
use cled.Clipboard.Service.Requests.{Request, write, read as asks_read, keep, kept, serve}
use cled.Clipboard.Service.Requests.HandedOff.{serve-keep}
use cled.Clipboard.Service.Reports.{IsReport, turn-IsReport}

-- A hasher that measures a text.
abbrev hash : Hashed → ℕ
hash (hashed_text t) = length t
hash (hashed_image i) = 0
hash (hashed_reason r) = 1

abbrev schedule : Schedule
schedule = record { interval = 500; next = 1000 }

abbrev word : Chars
word = b'a' ∷ b'b' ∷ b'c' ∷ []

abbrev watch : Watch
watch = record { last = some 3; last_token = some 8; last_written = none; schedule = schedule }

abbrev longer : Turn
longer = checks 1000 (some 9) (done (content (text (b'z' ∷ word))))

turn-IsReport_example : IsReport hash watch longer (turn hash watch longer).1
turn-IsReport_example = turn-IsReport hash watch longer

abbrev pixel : RawImage
pixel = record { width = 1; height = 1; rgba = 1 ∷ 2 ∷ 3 ∷ 4 ∷ [] }

read-IsAllowed_example :
    IsAllowed
      (done false)
      (done none)
      (done (some pixel))
      (read (done false) (done none) (done (some pixel)))
read-IsAllowed_example = read-IsAllowed (done false) (done none) (done (some pixel))

hold_from_stdin-encode_example :
    hold_from_stdin (encode (text word)) (done (content (text word))) true (empty ∷ [])
    ≡ (some (text word), released 0)
unfolding own_reports
hold_from_stdin-encode_example =
    hold_from_stdin-encode (text word) (content (text word)) (empty ∷ []) refl

-- A write that succeeds, one that fails, and a read.
abbrev busy_day : List Request
busy_day = write (text word) (done tt) ∷ write (text []) (failed busy) ∷ asks_read (done empty) ∷ []

abbrev same_content : ClipboardContent → ClipboardContent → Bool
same_content (text s) (text t) = s == t
same_content _ _ = false

serve-keep_example :
    serve hash true same_content watch
      (busy_day ++ keep (done (content (text word))) (done true) ∷ [])
    ≡ serve hash true same_content watch busy_day
      ++ kept (
          keep_after_exit true same_content
            (some (text word))
            (done (content (text word)))
            (done true))
        ∷ []
unfolding serve
serve-keep_example =
    serve-keep hash true same_content watch busy_day [] (done (content (text word))) (done true)
      refl
