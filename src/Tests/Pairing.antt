-- ===== src/Tests/Pairing.antt =====
-- The theorem of a whole pairing at a concrete input.
use cled.Common.{
  List, [], arith, drop, if◌then◌else◌, length, list_eq, list_eq_iff, nat_eq, none, refl, some, suc,
  true, zero, ℕ, ◌&&◌, ◌++◌, ◌==◌, ◌∷◌, ◌≡◌,
}
use cled.Lan.Error.{Result, ok, err, noise, io}
use cled.Lan.Wire.{Message, Hello}
use cled.Lan.Node.{Node, PairingSession}
use cled.Lan.Node.Pairing.{accept_pairing, join_pairing_over}
use cled.Lan.Node.Exchange.{
  Spake2, IsSpake2, listener_sends, joiner_sends, listener_key, joiner_key, pairing_exchange,
  pairing_exchange_joiner,
}
use cled.Lan.Node.Exchange.Both.{known_key, meets, paired_both}
use cled.Tests.Desktop.{small_node}

abbrev fill : ℕ → ℕ → List ℕ
fill zero a = []
fill (suc n) a = a ∷ fill n a

-- A key that tells the lengths of passwords apart.
abbrev spake : Spake2 (List ℕ)
spake = record {
  start_a = λ w a b r. (w, r ∷ []);
  start_b = λ w a b r. (w, r ∷ []);
  finish = λ w message. some (fill 32 (length w));
}

abbrev spake_law : IsSpake2 (List ℕ) spake
spake_law = record {
  message_length = 1;
  length_a = λ w a b r. refl;
  length_b = λ w a b r. refl;
  shared = λ w a b r s. fill 32 (length w);
  length_shared = λ w a b r s. refl;
  finish_a = λ w a b r s. refl;
  finish_b = λ w a b r s. refl;
}

abbrev handshake : List ℕ × List ℕ → List ℕ × List ℕ → ℕ → Result ℕ
handshake mine theirs key = if mine.0 == theirs.0 && mine.1 == theirs.1 then ok key else err noise

completes : (mine : List ℕ × List ℕ) (key : ℕ) → handshake mine mine key ≡ ok key
completes mine key = ground (arith, list_eq_iff mine.0 mine.0, list_eq_iff mine.1 mine.1)

abbrev active : PairingSession
active = record { code = b'A' ∷ b'7' ∷ []; expires_at = 100; failures = 0 }

abbrev shows : Node
shows = record small_node { pairing = some active }

abbrev types : Node
types = record small_node { device_id = 4 }

abbrev hello_of : ℕ → Hello
hello_of id = record { protocol = 1; device_id = id; name = []; listen_port = 7; time_ms = 0 }

abbrev no_codec : Message → Result (List ℕ)
no_codec m = err io

paired_both_example :
    (known_key
        (accept_pairing no_codec shows 50 60
          (pairing_exchange spake
            (meets handshake
              (joiner_key spake active.code 4 1 9
                (drop 16 (listener_sends spake active.code 1 4 8 ++ [])))
              77)
            (ok (hello_of 4))
            1
            4
            8
            (joiner_sends spake active.code 4 1 9 ++ []))
          (err io)
          none
          4
          1000
          true).0
        4
      ≡ some 77)
    × (known_key
          (join_pairing_over no_codec types
            (some 1)
            none
            (pairing_exchange_joiner spake
              (meets handshake
                (listener_key spake active.code 1 4 8 (joiner_sends spake active.code 4 1 9 ++ []))
                66)
              (ok (hello_of 1))
              4
              9
              (drop 16 (listener_sends spake active.code 1 4 8 ++ [])))
            none
            active.code
            1001
            true).0
          1
        ≡ some 66)
paired_both_example =
    paired_both (List ℕ) spake spake_law no_codec handshake completes shows types active 50 60
      (err io) none none 1000 1001 8 9 66 77 (hello_of 1) (hello_of 4) [] [] refl refl
