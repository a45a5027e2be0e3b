-- ===== src/Desktop/Preview.antt =====
-- apps/desktop/src-tauri/src/preview.rs: thumbnails. Scaling the pixels, PNG and base64 are a parameter.
use cled.Common.{
  Option, arith, if◌then◌else◌, leb, max, nat_eq, none, some, ℕ, ◌*◌, ◌++◌, ◌/◌, ◌<◌, ◌≤◌,
}
use native.Mathlib.Nat.{div-le_of_le-mul}
use cled.Common.Utf8.{codes}
use cled.Clipboard.Content.{Chars, Image}

abbrev max_edge : ℕ
max_edge = 480

abbrev scale : ℕ → ℕ → ℕ
scale longest edge = max (edge * max_edge / longest) 1

unfoldable pub thumbnail_size : ℕ → ℕ → ℕ × ℕ
thumbnail_size width height =
    let longest = max width height in
    if leb longest max_edge
    then (max width 1, max height 1)
    else (scale longest width, scale longest height)

-- `data_url`, where `encoded` makes the base64 text of the PNG of an image scaled to a size, if it can.
unfoldable pub data_url : (Image → ℕ → ℕ → Option Chars) → Image → Option Chars
data_url encoded i =
    let (width, height) = thumbnail_size i.width i.height in
    elim (encoded i width height) [
      | none ↦ none
      | some base64 ↦ some (codes "data:image/png;base64," ++ base64)
    ]

-- An edge that is not longer than the longest one, which is above the limit, is scaled to at most it.
scale-le : (longest edge : ℕ) → edge ≤ longest → max_edge < longest → scale longest edge ≤ max_edge
scale-le longest edge h big =
    let scaled : edge * max_edge / longest ≤ max_edge = div-le_of_le-mul longest (omega arith) in
    omega arith

-- A thumbnail has no edge of zero pixels and none above 480; an image without an edge above 480 keeps
-- its size, but that an edge of zero becomes one.
thumbnail_size_bounds :
    (width height : ℕ)
    → (1 ≤ (thumbnail_size width height).0)
      × ((thumbnail_size width height).0 ≤ max_edge)
      × (1 ≤ (thumbnail_size width height).1)
      × ((thumbnail_size width height).1 ≤ max_edge)
unfolding thumbnail_size
thumbnail_size_bounds width height =
    ground (arith, scale-le (max width height) width, scale-le (max width height) height)
