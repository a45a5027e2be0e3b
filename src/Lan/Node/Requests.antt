-- ===== src/Lan/Node/Requests.antt =====
-- What an incoming connection of crates/cled-lan/src/node.rs may ask for.
use cled.Common.{
  List, arith, if◌then◌else◌, length, length-append, list_eq, nat_eq, refl, take-append_at, ℕ, ◌++◌,
  ◌<◌, ◌==◌, ◌^◌, ◌≡◌,
}
use cled.Common.Bytes.{to_be_bytes, from_be_bytes-to_be_bytes, to_le_bytes}
use cled.Lan.Error.{err, malformed}
use cled.Lan.Node.Incoming.{Origin, preamble, dispatch, handle_incoming}

length-to_be_bytes_id : (n : ℕ) → length (to_be_bytes 16 n) ≡ 16
unfolding to_be_bytes to_le_bytes
length-to_be_bytes_id n = refl

-- The preamble that a device with an id of 16 bytes sends is understood: the connection is dispatched
-- by its kind for that device, unless the preamble names the device that receives it, which is refused.
handle_incoming-preamble :
    (me device kind : ℕ) (rest : List ℕ) (origin : Origin)
    → device < 256 ^ 16
    → handle_incoming me (preamble kind device ++ rest) origin
      ≡ (if device == me then err malformed else dispatch kind origin device)
unfolding handle_incoming preamble
handle_incoming-preamble me device kind rest origin h =
    rw
      (
        take-append_at 16 (to_be_bytes 16 device) rest (length-to_be_bytes_id device),
        from_be_bytes-to_be_bytes 16 device h,
      )
      (ground (arith, length-append (to_be_bytes 16 device) rest, length-to_be_bytes_id device))
