-- ===== src/Desktop/Relay/Session/Idle.antt =====
-- `idle` of apps/desktop/src-tauri/src/relay.rs: waiting between connections. A time is in seconds from the
-- start of the wait.
use cled.Common.{
  Bool, Bool-cases, List, Option, [], ap, false, if◌then◌else◌, inl, inr, leb, map, nat_eq, none,
  refl, some, ℕ, ◌++◌, ◌∷◌, ◌≡◌,
}
use cled.Common.Utf8.{codes}
use cled.Clipboard.Content.{Chars}
use cled.Desktop.Answer.{failed}
use cled.Desktop.Relay.Session.{Outgoing, test, pair, Reply, tested, paired}

-- What happens at a time: the desired state changes, or the user asks for something.
pub data Happening : Type 0 where
  desired_changed : (time : ℕ) → Happening
  requested : (time : ℕ) → Outgoing → Happening

abbrev time_of : Happening → ℕ
time_of (desired_changed time) = time
time_of (requested time out) = time

-- Whether the deadline has passed at a time.
abbrev is_over : Option ℕ → ℕ → Bool
is_over none time = false
is_over (some delay) time = leb delay time

abbrev not_connected : Chars
not_connected = codes "Not connected to the relay."

-- `Outgoing::refuse` with what is said of a relay that is not connected.
abbrev turned_away : Outgoing → ℕ × Reply
turned_away (test text reply) = (reply, tested (failed not_connected))
turned_away (pair code reply) = (reply, paired (failed not_connected))

-- The replies to the requests that come before the wait is over, and what happens after it.
unfoldable pub idle : Option ℕ → List Happening → List (ℕ × Reply) × List Happening
idle delay [] = ([], [])
idle delay (desired_changed time ∷ rest) =
    ([], if is_over delay time then desired_changed time ∷ rest else rest)
idle delay (requested time out ∷ rest) =
    let more = idle delay rest in
    if is_over delay time
    then ([], requested time out ∷ rest)
    else (turned_away out ∷ more.0, more.1)

-- The requests of a list of happenings.
abbrev requests : List Happening → List Outgoing
requests [] = []
requests (desired_changed time ∷ rest) = requests rest
requests (requested time out ∷ rest) = out ∷ requests rest

-- No request is lost: each one is turned away, or is still there after the wait.
idle_turns_away :
    (delay : Option ℕ) (hs : List Happening)
    → map turned_away (requests hs)
      ≡ (idle delay hs).0 ++ map turned_away (requests (idle delay hs).1)
unfolding idle
idle_turns_away delay [] = refl
idle_turns_away delay (desired_changed time ∷ rest) = elim (Bool-cases (is_over delay time)) [
  | inl over ↦ rw (idle, over) refl
  | inr early ↦ rw (idle, early) refl
]
idle_turns_away delay (requested time out ∷ rest) = elim (Bool-cases (is_over delay time)) [
  | inl over ↦ rw (idle, over) refl
  | inr early ↦ rw (idle, early) (ap (λ r. turned_away out ∷ r) (idle_turns_away delay rest))
]
