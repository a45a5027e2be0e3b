-- ===== src/Desktop/Tunnel/Table.antt =====
-- The table of tunnels of apps/desktop/src-tauri/src/tunnel.rs: which frames change which tunnels.
use cled.Common.{
  Bool, Bool-cases, List, Option, Option-cases, [], ap, arith, false, inl, inr, nat_eq, none, refl,
  some, true, ℕ, ◌<◌, ◌==◌, ◌^◌, ◌∙◌, ◌∷◌, ◌≡◌, ◌⊎◌,
}
use cled.Common.Map
use cled.Sync.Item.Text.{UuidText}
use cled.Desktop.Tunnel.{
  Key, key_eq, Tunnel, Tunnels, opened, kind_open, kind_data, kind_close, create, encode, decode,
  on_pumped, on_data, on_kind, on_frame, on_open, valid_data,
}
use cled.Desktop.Tunnel.Frames.{mirrored, decode-encode}

on_open_apart :
    (s : Tunnels) (key : Key) (here : Bool) (j : Key)
    → (key == j) ≡ false
    → Map.get (on_open s key here).0.table j ≡ Map.get s.table j
unfolding on_open create
on_open_apart s key true j h = refl
on_open_apart s key false j h =
    Map.get-insert_apart (Map.remove s.table key) key _ j h ∙ Map.get-remove_apart s.table key j h

-- Replacing a tunnel of the same key makes the table that a new key would.
on_open-create :
    (s : Tunnels) (key : Key) → on_open s key false ≡ (create s key, opened key.peer key)
unfolding on_open create
on_open-create s key =
    ap
      (λ (t : List (Key × Tunnel)). (
        record s { table = (key, record { to_session = []; listening = true }) ∷ t },
        opened key.peer key,
      ))
      (Map.remove_twice s.table key)

get-create :
    (s : Tunnels) (key : Key)
    → Map.get (create s key).table key ≡ some (record { to_session = []; listening = true })
unfolding create
get-create s key = Map.get-insert_same s.table key _

mirrored_twice : (key : Key) → mirrored (mirrored key) ≡ key
mirrored_twice key = ground arith

module _ (u : UuidText) where
  on_data_apart :
      (s : Tunnels) (key : Key) (bytes : List ℕ) (o : Option Tunnel) (j : Key)
      → (key == j) ≡ false
      → Map.get (on_data u s key bytes o).0.table j ≡ Map.get s.table j
  unfolding on_data
  on_data_apart s key bytes none j h = Map.get-remove_apart s.table key j h
  on_data_apart s key bytes (some t) j h = elim (Bool-cases t.listening) [
    | inl hears ↦ rw hears (Map.get-insert_apart s.table key _ j h)
    | inr deaf ↦ rw deaf (Map.get-remove_apart s.table key j h)
  ]

  on_kind_apart :
      (s : Tunnels) (kind : ℕ) (key : Key) (bytes : List ℕ) (j : Key)
      → (key == j) ≡ false
      → Map.get (on_kind u s kind key bytes).0.table j ≡ Map.get s.table j
  unfolding on_kind on_data create
  on_kind_apart s kind key bytes j h = elim (Bool-cases (kind == kind_open)) [
    | inl is_open ↦ rw (on_kind, is_open) (on_open_apart s key key.opened_here j h)
    | inr other ↦ elim (Bool-cases (kind == kind_data)) [
      | inl is_data ↦
          rw (on_kind, other, is_data) (on_data_apart s key bytes (Map.get s.table key) j h)
      | inr is_close ↦ rw (on_kind, other, is_close) (Map.get-remove_apart s.table key j h)
    ]
  ]

  -- What `on_frame` does with a frame that is decoded.
  pub on_frame-decoded :
      (s : Tunnels) (frame : List ℕ) (kind : ℕ) (key : Key) (bytes : List ℕ)
      → decode u frame ≡ some (kind, key, bytes)
      → on_frame u s frame ≡ on_kind u s kind key bytes
  unfolding on_frame
  on_frame-decoded s frame kind key bytes h = rw (on_frame, h) refl

  -- Whatever the frame, it changes no tunnel of another device than the one it names, and none of another
  -- id or direction: each tunnel is as it was, or is the one of the key that the frame is decoded to.
  on_frame_apart :
      (s : Tunnels) (frame : List ℕ) (j : Key)
      → (Map.get (on_frame u s frame).0.table j ≡ Map.get s.table j)
        ⊎ ((kind : ℕ) × (bytes : List ℕ) × (decode u frame ≡ some (kind, j, bytes)))
  unfolding on_frame
  on_frame_apart s frame j = elim (Option-cases (decode u frame)) [
    | inl bad ↦ inl (rw (on_frame, bad) refl)
    | inr ((kind, key, bytes), good) ↦ elim (Bool-cases (key == j)) [
      | inl same ↦
          inr (kind, bytes, good ∙ ap (λ k. some (kind, k, bytes)) ((key_eq.eq_iff key j).0 same))
      | inr apart ↦ inl (
          ap (λ r. Map.get r.0.table j) (on_frame-decoded s frame kind key bytes good)
          ∙ on_kind_apart s kind key bytes j apart)
    ]
  ]

  closed_again :
      (s : Tunnels) (key : Key)
      → Path
          (Tunnels × Option (List ℕ))
          (
            record (create s key) { table = Map.remove (create s key).table key },
            some (encode u kind_close key []),
          )
          (record s { table = Map.remove s.table key }, some (encode u kind_close key []))
  unfolding create
  closed_again s key =
      ap (λ (t : List (Key × Tunnel)). (record s { table = t }, some (encode u kind_close key [])))
        (Map.remove-insert s.table key _)

  on_pumped-end :
      (s : Tunnels) (key : Key) (t : Tunnel)
      → Map.get s.table key ≡ some t
      → on_pumped u s (record { key = key; bytes = none })
        ≡ (record s { table = Map.remove s.table key }, some (encode u kind_close key []))
  unfolding on_pumped
  on_pumped-end s key t h = rw (on_pumped, h) refl

  -- An end that an old session left in the channel closes the tunnel that the other side opened anew under
  -- the same key, and tells the other side so.
  on_pumped_stale :
      (s : Tunnels) (key : Key)
      → key.opened_here ≡ false
      → key.peer < 2 ^ 128
      → key.id < 2 ^ 32
      → (on_frame u s (encode u kind_open (mirrored key) []) ≡ (create s key, opened key.peer key))
        × (on_pumped u (create s key) (record { key = key; bytes = none })
            ≡ (record s { table = Map.remove s.table key }, some (encode u kind_close key [])))
  unfolding valid_data on_kind
  on_pumped_stale s key hh hp hi = (
    on_frame-decoded s _ kind_open key [] (
          decode-encode u kind_open (mirrored key) [] refl hp hi refl
          ∙ ap (λ k. some (kind_open, k, [])) (mirrored_twice key))
        ∙ ap (on_open s key) hh
        ∙ on_open-create s key,
    on_pumped-end (create s key) key _ (get-create s key) ∙ closed_again s key,
  )
