-- ===== src/Clipboard/Platform/Private.antt =====
-- That content which is marked private is not read, on each system of crates/cled-clipboard/src/platform.
use cled.Common.{
  Bool, Bool-cases, Eq, List, Option, [], any, ap, arith, contains, eq_comm, false, inl, inr,
  list_eq, nat_eq, none, refl, retain, some, sym, true, ℕ, ◌&&◌, ◌==◌, ◌||◌, ◌∙◌, ◌∷◌, ◌≡◌,
}
use cled.Clipboard.Content.{Chars}
use cled.Clipboard.Error.{Result, done}
use cled.Clipboard.Snapshot.{RawImage, read, skipped, sensitive}
use cled.Clipboard.Platform.{private_format_names, has_private_marker}
use cled.Clipboard.Platform.Linux.{
  holds_marker, pasted, formats, wayland_is_private, wayland_change_token, token_of, targets,
  x11_is_private, Poll,
}
use cled.Clipboard.Platform.Native.{
  opened, Windows, is_some_and, says_no, windows_is_private, mac_os_is_private, System, on_wayland,
  on_x11, on_windows, on_mac_os, is_private, clipboard_read, change_token,
}

-- One of the names that mark content as private is among those of its formats.
abbrev HasMarker : List Chars → Type 0
HasMarker names = any (λ marker. contains names marker) private_format_names ≡ true

-- A format of the list is on the clipboard and says no.
abbrev IsOptedOut : (ℕ → Bool) → (ℕ → Option ℕ) → List ℕ → Type 0
IsOptedOut avail value formats = any (λ format. avail format && says_no value format) formats ≡ true

-- The app that copied the content has marked it, and the mark can be seen.
pub data IsMarked : System → Type 0 where
  by_name : (names : List Chars) → HasMarker names → IsMarked (on_wayland (pasted names))
  by_type : (names : List Chars) → HasMarker names → IsMarked (on_mac_os (some names))
  by_target :
      (marker : ℕ) (requested : Result (Unit {0})) (window now : ℕ) (polls : List Poll)
      (atoms : List ℕ)
      → targets requested window now polls ≡ some (done atoms)
      → contains atoms marker ≡ true
      → IsMarked (on_x11 marker requested window now polls)
  by_exclusion :
      (w : Windows) (avail : ℕ → Bool) (opens : Bool) (value : ℕ → Option ℕ)
      → is_some_and w.exclude_from_monitoring avail ≡ true
      → IsMarked (on_windows w avail opens value)
  by_opt_out :
      (w : Windows) (avail : ℕ → Bool) (value : ℕ → Option ℕ)
      → IsOptedOut avail value w.dword_opt_outs
      → IsMarked (on_windows w avail true value)

any_or {ℓ} :
    {A : Type ℓ} (p q : A → Bool) (xs : List A) → any (λ x. p x || q x) xs ≡ (any p xs || any q xs)
any_or p q [] = refl
any_or p q (x ∷ xs) = ground (arith, any_or p q xs)

any_none {ℓ} : {A : Type ℓ} (xs : List A) → any (λ _. false) xs ≡ false
any_none [] = refl
any_none (x ∷ xs) = any_none xs

any_eq {ℓ} :
    {A : Type ℓ} ⦃e : Eq A⦄ (names : List A) (a : A) → any (λ m. a == m) names ≡ contains names a
any_eq [] a = refl
any_eq (m ∷ names) a = ground (arith, eq_comm a m, any_eq names a)

-- Each list has an element of the other one.
any-contains {ℓ} :
    {A : Type ℓ} ⦃e : Eq A⦄ (names formats : List A)
    → any (λ a. contains names a) formats ≡ any (λ m. contains formats m) names
any-contains names [] = sym (any_none names)
any-contains names (a ∷ formats) =
    ap (λ b. b || any (λ a. contains names a) formats) (sym (any_eq names a))
    ∙ ap (λ b. any (λ m. a == m) names || b) (any-contains names formats)
    ∙ sym (any_or (λ m. a == m) (λ m. contains formats m) names)

marker_seen : (names : List Chars) → HasMarker names → has_private_marker names ≡ true
unfolding has_private_marker
marker_seen names h = any-contains private_format_names names ∙ h

-- What opts out is among what is on the clipboard.
any-retain {ℓ} :
    {A : Type ℓ} (p q : A → Bool) (xs : List A) → any q (retain p xs) ≡ any (λ x. p x && q x) xs
any-retain p q [] = refl
any-retain p q (x ∷ xs) = elim (Bool-cases (p x)) [
  | inl there ↦ rw there (ap (λ b. q x || b) (any-retain p q xs))
  | inr gone ↦ rw gone (any-retain p q xs)
]

opened_opted :
    (formats : List ℕ) (value : ℕ → Option ℕ)
    → any (says_no value) formats ≡ true
    → opened true formats value ≡ done true
opened_opted [] value h = ground arith
opened_opted (f ∷ formats) value h = ap done h

opted_out :
    (w : Windows) (avail : ℕ → Bool) (value : ℕ → Option ℕ)
    → IsOptedOut avail value w.dword_opt_outs
    → windows_is_private w avail true value ≡ done true
unfolding windows_is_private
opted_out w avail value h = elim (Bool-cases (is_some_and w.exclude_from_monitoring avail)) [
  | inl excluded ↦ rw (windows_is_private, excluded) refl
  | inr kept ↦
      rw (windows_is_private, kept)
        (opened_opted (retain avail w.dword_opt_outs) value
          (any-retain avail (says_no value) w.dword_opt_outs ∙ h))
]

IsMarked-is_private : (s : System) → IsMarked s → is_private s ≡ some (done true)
unfolding is_private wayland_is_private formats mac_os_is_private x11_is_private windows_is_private
IsMarked-is_private _ (by_name names h) = ap (λ b. some (done b)) (marker_seen names h)
IsMarked-is_private _ (by_type names h) = ap (λ b. some (done b)) (marker_seen names h)
IsMarked-is_private _ (by_target marker requested window now polls atoms answered h) =
    ap (holds_marker marker) answered ∙ ap (λ b. some (done b)) h
IsMarked-is_private _ (by_exclusion w avail opens value h) = rw (windows_is_private, h) refl
IsMarked-is_private _ (by_opt_out w avail value h) = ap some (opted_out w avail value h)

token_marked :
    (hash : List Chars → Option (List ℕ) → ℕ) (names : List Chars) (contents : Option (List ℕ))
    → HasMarker names
    → token_of hash names contents ≡ some (hash names none)
token_marked hash names contents h = ground (arith, marker_seen names h)

IsMarked-change_token :
    (hash : List Chars → Option (List ℕ) → ℕ) (s : System) (count : Option ℕ)
    (contents contents' : Option (List ℕ))
    → IsMarked s
    → change_token hash s count contents ≡ change_token hash s count contents'
unfolding change_token wayland_change_token formats
IsMarked-change_token hash _ count contents contents' (by_name names h) =
    token_marked hash names contents h ∙ sym (token_marked hash names contents' h)
IsMarked-change_token hash _ count contents contents' (by_type names h) = refl
IsMarked-change_token hash _ count contents contents'
      (by_target marker requested window now polls atoms answered h) =
    refl
IsMarked-change_token hash _ count contents contents' (by_exclusion w avail opens value h) = refl
IsMarked-change_token hash _ count contents contents' (by_opt_out w avail value h) = refl

-- Content that is marked as private, where the mark can be seen, is not read on any system, whatever it is: the
-- clipboard reads as sensitive, and the change token does not depend on the content.
pub read-IsMarked :
    (hash : List Chars → Option (List ℕ) → ℕ) (s : System) (count : Option ℕ)
    (contents contents' : Option (List ℕ)) (t : Result (Option Chars))
    (raw : Result (Option RawImage))
    → IsMarked s
    → (clipboard_read s t raw ≡ some (done (skipped sensitive)))
      × (change_token hash s count contents ≡ change_token hash s count contents')
unfolding clipboard_read read
read-IsMarked hash s count contents contents' t raw h = (
  rw (clipboard_read, IsMarked-is_private s h) refl,
  IsMarked-change_token hash s count contents contents' h,
)
