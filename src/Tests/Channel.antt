-- ===== src/Tests/Channel.antt =====
-- The theorems of channels, messages and codes at concrete inputs.
use cled.Common.{
  List, [], ap, arith, false, if◌then◌else◌, length, nat_eq, none, refl, some, subst, true, ℕ, ◌++◌,
  ◌+◌, ◌==◌, ◌↔◌, ◌∷◌, ◌≡◌, ◌≢◌, ◌≤◌,
}
use cled.Clipboard.Content.{Image, image, from_rgba, rgba_len}
use cled.Sync.Item.{ClipboardItem}
use cled.Sync.Engine.{is_newer_than, current_of}
use cled.Lan.Addr.{addr_eq, v4, SocketAddr}
use cled.Lan.Error.{Result, ok, err, noise, Ensures, ok_injective}
use cled.Lan.Code.{PairingCode, digits, generate, parse, display, fold_bits}
use cled.Lan.Code.Uniform.{IsRandom, bytes_for, generate_once}
use cled.Lan.Code.Typing.{IsCode, parse-display}
use cled.Lan.Wire.{
  max_message_bytes, unix_epoch, from_item, into_item, WireItem, to_ms, to_wire, from_millis,
  wire_image, encode_png,
}
use cled.Lan.Wire.Items.{arrived, into_item-from_item, is_newer_than-arrived}
use cled.Lan.Noise.{max_chunk, send, recv, recv_loop}
use cled.Lan.Noise.Messages.{Passes}
use cled.Lan.Noise.Roundtrip.{recv-send}
use cled.Lan.Noise.Fuel.{recv_bounded, recv_loop_enough}

-- A cipher that counts its messages: the count stands before each of them.
abbrev counted : ℕ → List ℕ → Result (ℕ × List ℕ)
counted s chunk = ok (s + 1, s ∷ chunk)

abbrev verified : ℕ → List ℕ → Result (ℕ × List ℕ)
verified r [] = err noise
verified r (c ∷ chunk) = if c == r then ok (r + 1, chunk) else err noise

abbrev AreEqual : ℕ → ℕ → Type 0
AreEqual s r = s ≡ r

Passes-counted :
    (s r : ℕ) (chunk : List ℕ)
    → s ≡ r
    → length chunk ≤ max_chunk
    → Passes counted verified AreEqual s r chunk
Passes-counted s r chunk same few = record {
  sender = s + 1;
  receiver = r + 1;
  out = s ∷ chunk;
  writes = refl;
  short = omega (arith, few);
  reads = ground (arith, same);
  agree = ap (λ n. n + 1) same;
}

abbrev hi : List ℕ
hi = b'h' ∷ b'i' ∷ []

recv-send_example :
    (receiver : ℕ) × ((send counted verified 4 [] hi).2 ≡ ok tt)
    × (recv counted verified 4 ((send counted verified 4 [] hi).1 ++ 9 ∷ [])
        ≡ ok (receiver, hi, 9 ∷ []))
    × ((send counted verified 4 [] hi).0 ≡ receiver)
recv-send_example =
    recv-send counted verified AreEqual Passes-counted 4 4 hi (9 ∷ []) refl (omega arith)

recv_bounded_example :
    Ensures
      (λ x. length x.1 ≤ max_message_bytes)
      (recv counted verified 4 (0 ∷ 7 ∷ 4 ∷ 0 ∷ 0 ∷ 0 ∷ 2 ∷ b'h' ∷ b'i' ∷ []))
recv_bounded_example =
    recv_bounded counted verified 4 (0 ∷ 7 ∷ 4 ∷ 0 ∷ 0 ∷ 0 ∷ 2 ∷ b'h' ∷ b'i' ∷ [])

recv_loop_enough_example :
    recv_loop counted verified 20 4 none [] (0 ∷ 7 ∷ 4 ∷ 0 ∷ 0 ∷ 0 ∷ 2 ∷ b'h' ∷ b'i' ∷ [])
    ≡ recv_loop counted verified 10 4 none [] (0 ∷ 7 ∷ 4 ∷ 0 ∷ 0 ∷ 0 ∷ 2 ∷ b'h' ∷ b'i' ∷ [])
recv_loop_enough_example =
    recv_loop_enough counted verified 20 4 none [] (0 ∷ 7 ∷ 4 ∷ 0 ∷ 0 ∷ 0 ∷ 2 ∷ b'h' ∷ b'i' ∷ [])
      (omega arith)

-- An image format that keeps the size before the pixels.
abbrev pub keep_size : Image → Result (List ℕ)
keep_size i = ok (i.width ∷ i.height ∷ i.rgba)

abbrev pub read_size : List ℕ → Result (ℕ × ℕ × List ℕ)
read_size [] = err noise
read_size (w ∷ []) = err noise
read_size (w ∷ h ∷ rgba) = ok (w, h, rgba)

pub reads_all :
    (i : Image) (png : List ℕ)
    → keep_size i ≡ ok png
    → read_size png ≡ ok (i.width, i.height, i.rgba)
reads_all i png h = subst (λ p. read_size p ≡ ok (i.width, i.height, i.rgba)) (ok_injective h) refl

abbrev dot : Image
dot = record { width = 1; height = 1; rgba = 1 ∷ 2 ∷ 3 ∷ 4 ∷ [] }

abbrev item_of : ℕ → ℕ → ClipboardItem
item_of id at = record {
  id = id;
  origin = 1;
  content_hash = 5;
  created_at = unix_epoch + at;
  content = image dot;
}

abbrev wire_dot : WireItem
wire_dot = record {
  id = 3;
  origin = 1;
  created_at_ms = 2;
  content_hash = 5;
  content = wire_image 1 1 (1 ∷ 1 ∷ 1 ∷ 2 ∷ 3 ∷ 4 ∷ []);
}

dot_made : from_rgba 1 1 (1 ∷ 2 ∷ 3 ∷ 4 ∷ []) ≡ some dot
unfolding from_rgba rgba_len
dot_made = refl

dot_sent : from_item keep_size (item_of 3 2000007) ≡ ok wire_dot
unfolding from_item to_wire encode_png to_ms
dot_sent = refl

into_item-from_item_example : into_item read_size wire_dot ≡ ok (arrived (item_of 3 2000007))
into_item-from_item_example =
    into_item-from_item keep_size read_size reads_all (item_of 3 2000007) wire_dot dot_made dot_sent

same_ms : to_ms (unix_epoch + 9) ≡ to_ms (unix_epoch + 7)
unfolding to_ms
same_ms = refl

in_part : from_millis (to_ms (unix_epoch + 7)) ≢ unix_epoch + 7
unfolding to_ms
in_part = omega arith

is_newer_than-arrived_example :
    (is_newer_than (current_of (item_of 3 7)) (arrived (item_of 4 9)) ≡ true)
    × (is_newer_than (current_of (arrived (item_of 3 7))) (arrived (item_of 4 9)) ≡ false)
is_newer_than-arrived_example =
    is_newer_than-arrived (item_of 3 7) (item_of 4 9) (omega arith) in_part same_ms (omega arith)

abbrev a_code : PairingCode
a_code = b'0' ∷ b'4' ∷ b'1' ∷ b'0' ∷ b'6' ∷ b'1' ∷ b'0' ∷ b'5' ∷ []

code_made : generate (ok (1 ∷ 2 ∷ 3 ∷ 4 ∷ 5 ∷ [])) ≡ ok a_code
unfolding generate digits fold_bits
code_made = refl

parse-display_example : IsCode a_code × (parse (display a_code) ≡ ok a_code)
parse-display_example = parse-display (1 ∷ 2 ∷ 3 ∷ 4 ∷ 5 ∷ []) a_code code_made

abbrev home : List (ℕ × ℕ)
home = (3232235777, 4294967040) ∷ []

abbrev found : List SocketAddr
found = v4 2886795265 80 ∷ v4 3232235800 80 ∷ v4 2886795265 80 ∷ []

some_bytes-IsRandom : IsRandom (1 ∷ 2 ∷ 3 ∷ 4 ∷ 5 ∷ [])
some_bytes-IsRandom =
    (refl, (omega arith, (omega arith, (omega arith, (omega arith, (omega arith, tt))))))

generate_once_example :
    IsRandom (bytes_for a_code)
    × (generate (ok (bytes_for a_code)) ≡ ok a_code)
    × ((generate (ok (1 ∷ 2 ∷ 3 ∷ 4 ∷ 5 ∷ [])) ≡ ok a_code)
        ↔ ((1 ∷ 2 ∷ 3 ∷ 4 ∷ 5 ∷ []) ≡ bytes_for a_code))
generate_once_example =
    generate_once a_code (1 ∷ 2 ∷ 3 ∷ 4 ∷ 5 ∷ []) (refl, refl) some_bytes-IsRandom
