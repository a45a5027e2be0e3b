-- ===== src/Lan/Node/Incoming.antt =====
-- Incoming connections of crates/cled-lan/src/node.rs: the preamble and what it leads to.
use cled.Common.{
  Bool, List, Option, [], if◌then◌else◌, leb, length, list_eq, nat_eq, none, not, some, take, true,
  ℕ, ◌++◌, ◌==◌, ◌||◌, ◌∷◌,
}
use cled.Common.Bytes.{to_be_bytes, from_be_bytes}
use cled.Sync.Item.{DeviceId}
use cled.Lan.Addr.{SocketAddr}
use cled.Lan.Error.{Result, ok, err, malformed, io}

abbrev magic : List ℕ
magic = b'C' ∷ b'L' ∷ b'E' ∷ b'D' ∷ []

abbrev preamble_version : ℕ
preamble_version = 1

abbrev kind_session : ℕ
kind_session = 1

abbrev kind_pairing : ℕ
kind_pairing = 2

-- Where a connection came from: an address, or a tunnel that this device is said to have opened.
pub data Origin : Type 0 where
  tcp : SocketAddr → Origin
  tunnel : DeviceId → Origin

unfoldable pub preamble : ℕ → DeviceId → List ℕ
preamble kind device = magic ++ (preamble_version ∷ kind ∷ to_be_bytes 16 device)

unfoldable session_prologue : DeviceId → DeviceId → List ℕ
session_prologue initiator responder =
    (b'c' ∷ b'l' ∷ b'e' ∷ b'd' ∷ b'-' ∷ b's' ∷ b'e' ∷ b's' ∷ b's' ∷ b'i' ∷ b'o' ∷ b'n' ∷ b'-' ∷ b'v'
      ∷ b'1' ∷ [])
    ++ (to_be_bytes 16 initiator ++ to_be_bytes 16 responder)

unfoldable pub pairing_prologue : DeviceId → DeviceId → List ℕ
pairing_prologue listener joiner =
    (b'c' ∷ b'l' ∷ b'e' ∷ b'd' ∷ b'-' ∷ b'p' ∷ b'a' ∷ b'i' ∷ b'r' ∷ b'-' ∷ b'v' ∷ b'1' ∷ [])
    ++ (to_be_bytes 16 listener ++ to_be_bytes 16 joiner)

-- What an incoming connection asks for: the sender, and the address it came from over TCP.
pub data Request : Type 0 where
  session : Option SocketAddr → DeviceId → Request
  pairing : Option SocketAddr → DeviceId → Request

abbrev address_of : Origin → Option SocketAddr
address_of (tcp a) = some a
address_of (tunnel opener) = none

abbrev is_opener : Origin → DeviceId → Bool
is_opener (tcp a) sender = true
is_opener (tunnel opener) sender = opener == sender

-- The `match` of `handle_incoming`.
unfoldable pub dispatch : ℕ → Origin → DeviceId → Result Request
dispatch kind origin sender =
    if not (is_opener origin sender)
    then err malformed
    else if kind == kind_session
    then ok (session (address_of origin) sender)
    else if kind == kind_pairing
    then ok (pairing (address_of origin) sender)
    else err malformed

-- `handle_incoming` up to the call it makes, on the bytes that have come on the stream.
unfoldable pub handle_incoming : DeviceId → List ℕ → Origin → Result Request
handle_incoming me [] origin = err io
handle_incoming me (a ∷ []) origin = err io
handle_incoming me (a ∷ b ∷ []) origin = err io
handle_incoming me (a ∷ b ∷ c ∷ []) origin = err io
handle_incoming me (a ∷ b ∷ c ∷ d ∷ []) origin = err io
handle_incoming me (a ∷ b ∷ c ∷ d ∷ version ∷ []) origin = err io
handle_incoming me (a ∷ b ∷ c ∷ d ∷ version ∷ kind ∷ rest) origin =
    if not (leb 16 (length rest))
    then err io
    else if not ((a ∷ b ∷ c ∷ d ∷ []) == magic) || not (version == preamble_version)
    then err malformed
    else let sender = from_be_bytes (take 16 rest) in
      if sender == me then err malformed else dispatch kind origin sender
