-- ===== src/Clipboard/Platform/Watching.antt =====
-- The threads that watch for changes, in crates/cled-clipboard/src/platform: wayland.rs, x11.rs and windows.rs. Each
-- call of `notify` comes with its answer, which is `false` once the service is gone.
use cled.Common.{
  Bool, List, Option, [], false, if◌then◌else◌, nat_eq, none, not, some, true, ℕ, ◌+◌, ◌==◌, ◌||◌,
  ◌∷◌,
}

-- What a data-control device sends; the offers that come with it are destroyed.
pub data DeviceEvent : Type 0 where
  selection primary_selection finished unrelated : DeviceEvent

-- The watcher's flag, and how often it has called `notify`.
pub record State : Type 0 where
  pub stop : Bool
  pub notified : ℕ

-- `State::selection_changed`.
unfoldable pub selection_changed : State → Bool → State
selection_changed s alive = record { stop = s.stop || not alive; notified = s.notified + 1 }

-- `Dispatch::event`, of both protocols.
unfoldable pub on_device_event : State → DeviceEvent × Bool → State
on_device_event s (selection, alive) = selection_changed s alive
on_device_event s (primary_selection, alive) = s
on_device_event s (finished, alive) = s
on_device_event s (unrelated, alive) = s

abbrev pub dispatch : State → List (DeviceEvent × Bool) → State
dispatch s [] = s
dispatch s (e ∷ es) = dispatch (on_device_event s e) es

-- The loop of the thread, where a call of `blocking_dispatch` handles a batch of events, or fails.
unfoldable watch_wayland : State → List (Option (List (DeviceEvent × Bool))) → State
watch_wayland s [] = s
watch_wayland s (batch ∷ rest) = elim s.stop [
  | true ↦ s
  | false ↦ elim batch [ none ↦ s | some events ↦ watch_wayland (dispatch s events) rest ]
]

-- What `wait_for_event` gives.
pub data X11Event : Type 0 where
  xfixes_selection_notify : (alive : Bool) → X11Event
  client_message : (type : ℕ) → X11Event
  other_event lost : X11Event

-- The loop of the thread: how often it calls `notify`.
unfoldable watch_x11 : (stop_atom : ℕ) → List X11Event → ℕ
watch_x11 stop_atom [] = 0
watch_x11 stop_atom (xfixes_selection_notify true ∷ rest) = watch_x11 stop_atom rest + 1
watch_x11 stop_atom (xfixes_selection_notify false ∷ rest) = 1
watch_x11 stop_atom (client_message type ∷ rest) =
    let more = watch_x11 stop_atom rest in if type == stop_atom then 0 else more
watch_x11 stop_atom (other_event ∷ rest) = watch_x11 stop_atom rest
watch_x11 stop_atom (lost ∷ rest) = 0

-- `ListenerThread`: what `recv` gives, with the answer of `notify` to an update.
unfoldable watch_windows : List (Bool × Bool) → ℕ
watch_windows [] = 0
watch_windows ((true, true) ∷ rest) = watch_windows rest + 1
watch_windows ((true, false) ∷ rest) = 1
watch_windows ((false, alive) ∷ rest) = 0
