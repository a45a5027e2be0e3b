-- ===== src/Clipboard/Service/Requests/HandedOff.antt =====
-- What `keep_content_after_exit` of crates/cled-clipboard/src/service.rs goes by.
use cled.Common.{
  Bool, Bool-cases, List, Option, [], ap, arith, false, inl, inr, is_some, nat_eq, option_eq, refl,
  some, true, ℕ, ◌&&◌, ◌++◌, ◌==◌, ◌∙◌, ◌∷◌, ◌≡◌,
}
use cled.Clipboard.Content.{ClipboardContent}
use cled.Clipboard.Error.{Result, done, failed}
use cled.Clipboard.Snapshot.{Snapshot, Hashed}
use cled.Clipboard.Service.{Watch, check, turn, keep_after_exit}
use cled.Clipboard.Service.Requests.{
  Request, read, write, keep, notice, check_due, stop, snapshot, written, kept, turn_of, reply,
  serve,
}

-- The content of the last write that succeeded, or what was written before.
abbrev last_write : Option ClipboardContent → List Request → Option ClipboardContent
last_write before [] = before
last_write before (write c (done ok) ∷ rest) = last_write (some c) rest
last_write before (_ ∷ rest) = last_write before rest

abbrev goes_on : List Request → Bool
goes_on [] = true
goes_on (stop ∷ rest) = false
goes_on (_ ∷ rest) = goes_on rest

module _ (hash : Hashed → ℕ) (dies : Bool) (same : ClipboardContent → ClipboardContent → Bool) where
  abbrev pub after : Watch → List Request → Watch
  after w [] = w
  after w (r ∷ rest) = after (turn_of hash dies same w r) rest

  -- A check writes nothing.
  check-last_written :
      (w : Watch) (now : ℕ) (token : Option ℕ) (seen : Result Snapshot)
      → (check hash w now token seen).0.last_written ≡ w.last_written
  unfolding check
  check-last_written w now token seen = elim (Bool-cases (is_some token && token == w.last_token)) [
    | inl idle ↦ rw (check, idle) refl
    | inr due ↦ rw (check, due) refl
  ]

  after-last_written :
      (w : Watch) (rs : List Request)
      → goes_on rs ≡ true
      → (after w rs).last_written ≡ last_write w.last_written rs
  unfolding turn
  after-last_written w [] h = refl
  after-last_written w (read r ∷ rs) h = after-last_written w rs h
  after-last_written w (write c (done ok) ∷ rs) h =
      after-last_written (record w { last_written = some c }) rs h
  after-last_written w (write c (failed e) ∷ rs) h = after-last_written w rs h
  after-last_written w (keep current held ∷ rs) h = after-last_written w rs h
  after-last_written w (notice now ∷ rs) h = after-last_written _ rs h
  after-last_written w (check_due now token seen ∷ rs) h =
      after-last_written _ rs h ∙ ap (λ l. last_write l rs) (check-last_written w now token seen)
  after-last_written w (stop ∷ rs) h = absurd (ground arith)

  serve-append :
      (w : Watch) (rs more : List Request)
      → goes_on rs ≡ true
      → serve hash dies same w (rs ++ more)
        ≡ serve hash dies same w rs ++ serve hash dies same (after w rs) more
  unfolding serve reply turn
  serve-append w [] more h = refl
  serve-append w (read r ∷ rs) more h = ap (λ l. snapshot r ∷ l) (serve-append w rs more h)
  serve-append w (write c r ∷ rs) more h =
      ap (λ l. written r ∷ l) (serve-append (turn_of hash dies same w (write c r)) rs more h)
  serve-append w (keep current held ∷ rs) more h =
      ap (λ l. kept (keep_after_exit dies same w.last_written current held) ∷ l)
        (serve-append w rs more h)
  serve-append w (notice now ∷ rs) more h =
      serve-append (turn_of hash dies same w (notice now)) rs more h
  serve-append w (check_due now token seen ∷ rs) more h =
      serve-append (turn_of hash dies same w (check_due now token seen)) rs more h
  serve-append w (stop ∷ rs) more h = absurd (ground arith)

  -- A request to keep the content after the exit, that is served, is answered by the last write that
  -- succeeded before it, whatever was read, checked or noticed in between; it changes no other reply.
  pub serve-keep :
      (w : Watch) (rs more : List Request) (current : Result Snapshot) (held : Result Bool)
      → goes_on rs ≡ true
      → serve hash dies same w (rs ++ keep current held ∷ more)
        ≡ serve hash dies same w rs
          ++ kept (keep_after_exit dies same (last_write w.last_written rs) current held)
            ∷ serve hash dies same (after w rs) more
  unfolding serve reply turn
  serve-keep w rs more current held h =
      serve-append w rs (keep current held ∷ more) h
      ∙ ap
          (λ l.
            serve hash dies same w rs
            ++ kept (keep_after_exit dies same l current held)
              ∷ serve hash dies same (after w rs) more)
          (after-last_written w rs h)
