-- ===== src/Lan/Node/Exchange/Paired.antt =====
-- Two devices that pair with one code, in crates/cled-lan/src/node.rs.
use cled.Common.{
  List, ap, arith, drop, drop-append_at, length, nat_eq, refl, some, sym, ℕ, ◌++◌, ◌∙◌, ◌≡◌,
}
use cled.Lan.Noise.Frames.{read_exact-append}
use mathlib.Core.List.{append_assoc}
use cled.Common.Bytes.{to_be_bytes, to_le_bytes}
use cled.Sync.Item.{DeviceId}
use cled.Lan.Code.{PairingCode}
use cled.Lan.Error.{ok}
use cled.Lan.Noise.Frames.{read_exact-append}
use cled.Lan.Node.Incoming.{pairing_prologue}
use cled.Lan.Node.Exchange.{
  Spake2, IsSpake2, spake_key, Keyed, agree_key, listener_sends, listener_key, joiner_sends,
  joiner_key,
}

length-id : (id : DeviceId) → length (to_be_bytes 16 id) ≡ 16
unfolding to_be_bytes to_le_bytes
length-id id = refl

module _ (S : Type 0) (p : Spake2 S) (law : IsSpake2 S p) (code : PairingCode)
    (listener joiner : DeviceId) (r s : ℕ) where
  abbrev me_bytes : List ℕ
  me_bytes = to_be_bytes 16 listener

  abbrev joiner_bytes : List ℕ
  joiner_bytes = to_be_bytes 16 joiner

  -- The key that both sides come to.
  abbrev shared_key : List ℕ
  shared_key = law.shared code (to_be_bytes 16 listener) (to_be_bytes 16 joiner) r s

  spake_key-shared : spake_key (some shared_key) ≡ ok shared_key
  unfolding spake_key
  spake_key-shared =
      ground (arith, law.length_shared code (to_be_bytes 16 listener) (to_be_bytes 16 joiner) r s)

  abbrev pub keyed : List ℕ → Keyed
  keyed rest = record {
    psk = shared_key;
    prologue = pairing_prologue listener joiner;
    stream = rest;
  }

  agreed :
      (state : S) (len : ℕ) (message rest : List ℕ)
      → length message ≡ len
      → p.finish state message ≡ some shared_key
      → agree_key p state len (pairing_prologue listener joiner) (message ++ rest) ≡ ok (keyed rest)
  unfolding agree_key
  agreed state len message rest same h =
      rw (agree_key, read_exact-append len message rest same) (rw h (rw spake_key-shared refl))

  pub listener_key-joiner_sends :
      (rest : List ℕ)
      → listener_key p code listener joiner r (joiner_sends p code joiner listener s ++ rest)
        ≡ ok (keyed rest)
  unfolding listener_key joiner_sends
  listener_key-joiner_sends rest =
      agreed (p.start_a code me_bytes joiner_bytes r).0
        (length (p.start_a code me_bytes joiner_bytes r).1)
        (p.start_b code me_bytes joiner_bytes s).1 rest
        (law.length_b code me_bytes joiner_bytes s
          ∙ sym (law.length_a code me_bytes joiner_bytes r))
        (law.finish_a code me_bytes joiner_bytes r s)

  -- The id that comes first is read before.
  pub joiner_key-listener_sends :
      (rest : List ℕ)
      → joiner_key p code joiner listener s
          (drop 16 (listener_sends p code listener joiner r ++ rest))
        ≡ ok (keyed rest)
  unfolding joiner_key listener_sends
  joiner_key-listener_sends rest =
      let message : List ℕ = (p.start_a code me_bytes joiner_bytes r).1 in
      let started = p.start_b code me_bytes joiner_bytes s in
      let left : drop 16 ((me_bytes ++ message) ++ rest) ≡ message ++ rest =
        ap (λ l. drop 16 l) (append_assoc me_bytes message rest)
        ∙ drop-append_at 16 me_bytes (message ++ rest) (length-id listener) in
      ap (agree_key p started.0 (length started.1) (pairing_prologue listener joiner)) left
      ∙ agreed started.0 (length started.1) message rest
          (law.length_a code me_bytes joiner_bytes r
            ∙ sym (law.length_b code me_bytes joiner_bytes s))
          (law.finish_b code me_bytes joiner_bytes r s)
