-- ===== src/Clipboard/Service/Reports.antt =====
-- What the clipboard thread of crates/cled-clipboard/src/service.rs reports.
use cled.Common.{
  Bool-cases, Option, all, ap, arith, inl, inr, is_some, nat_eq, none, not, option_eq,
  option_eq_iff, refl, some, sym, true, ℕ, ◌&&◌, ◌++◌, ◌==◌, ◌∙◌, ◌≡◌, ◌≢◌,
}
use cled.Clipboard.Content.{Chars, text, is_whitespace}
use cled.Clipboard.Content.Trim.{identity_text-append}
use cled.Clipboard.Error.{Result, done, failed}
use cled.Clipboard.Snapshot.{Snapshot, content, Hashed, fingerprint, observe, hashed, hashed_text}
use cled.Clipboard.Service.{Watch, Turn, reads, writes, keeps, changed, checks, look, check, turn}

module _ (hash : Hashed → ℕ) where
  -- A report is what was just read, it is not empty, and its fingerprint is not the last one.
  abbrev pub IsReport : Watch → Turn → Option Snapshot → Type 0
  IsReport w t none = Unit {0}
  IsReport w t (some s) =
      (fingerprint hash s ≢ none)
      × (fingerprint hash s ≢ w.last)
      × ((turn hash w t).0.last ≡ fingerprint hash s)

  look-new :
      (last : Option ℕ) (s : Snapshot)
      → (is_some (fingerprint hash s) && not (fingerprint hash s == last)) ≡ true
      → (fingerprint hash s ≢ none) × (fingerprint hash s ≢ last)
  look-new last s h = (
    λ e. ground (arith, h, e),
    λ e. ground (arith, h, (option_eq_iff (fingerprint hash s) last).1 e),
  )

  check-IsReport :
      (w : Watch) (now : ℕ) (token : Option ℕ) (seen : Result Snapshot)
      → IsReport w (checks now token seen) (check hash w now token seen).1
  unfolding turn check look observe
  check-IsReport w now token (failed e) = ground arith
  check-IsReport w now token (done s) = elim (Bool-cases (is_some token && token == w.last_token)) [
    | inl same ↦ rw same tt
    | inr moved ↦
        elim (Bool-cases (is_some (fingerprint hash s) && not (fingerprint hash s == w.last))) [
          | inl new ↦
              let (there, other) = look-new w.last s new in
              let noted : (check hash w now token (done s)).0.last ≡ fingerprint hash s =
                rw (check, moved) refl in
              rw (moved, new) (there, other, noted)
          | inr old ↦ rw (moved, old) tt
        ]
  ]

  -- Whatever the turn of the loop, nothing is reported but a snapshot that is not empty and differs from
  -- the last one seen in its fingerprint, which is then the last one.
  pub turn-IsReport : (w : Watch) (t : Turn) → IsReport w t (turn hash w t).1
  unfolding turn
  turn-IsReport w reads = tt
  turn-IsReport w (writes c (done ok')) = tt
  turn-IsReport w (writes c (failed e)) = tt
  turn-IsReport w keeps = tt
  turn-IsReport w (changed now) = tt
  turn-IsReport w (checks now token seen) = check-IsReport w now token seen

  look-same :
      (last : Option ℕ) (s : Snapshot)
      → fingerprint hash s ≡ last
      → (look hash last (done s)).1 ≡ none
  unfolding look observe
  look-same last s h = ground (arith, h, (option_eq_iff (fingerprint hash s) last).1 h)

  check-same :
      (w : Watch) (now : ℕ) (token : Option ℕ) (s : Snapshot)
      → fingerprint hash s ≡ w.last
      → (check hash w now token (done s)).1 ≡ none
  unfolding check
  check-same w now token s h = elim (Bool-cases (is_some token && token == w.last_token)) [
    | inl same ↦ rw (check, same) refl
    | inr moved ↦ rw (check, moved) (look-same w.last s h)
  ]

  -- A check that sees the last text again, or that text with whitespace added at its end, reports
  -- nothing.
  turn-again :
      (w : Watch) (t : Chars) (s : Chars) (now : ℕ) (token : Option ℕ)
      → all is_whitespace s ≡ true
      → w.last ≡ fingerprint hash (content (text t))
      → (turn hash w (checks now token (done (content (text (t ++ s)))))).1 ≡ none
  unfolding turn fingerprint hashed
  turn-again w t s now token spaces last =
      check-same w now token (content (text (t ++ s)))
        (ap (λ u. some (hash (hashed_text u))) (identity_text-append t s spaces) ∙ sym last)
