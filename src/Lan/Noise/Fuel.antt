-- ===== src/Lan/Noise/Fuel.antt =====
-- `Cipher::recv` of crates/cled-lan/src/noise.rs: its loop ends, and what it takes in is bounded.
use cled.Common.{
  Bool-cases, List, Option, [], ap, arith, inl, inr, leb, leb→le, length, length-drop, ltb, nat_eq,
  none, refl, some, subst, suc, take, zero, ℕ, ◌+◌, ◌<◌, ◌==◌, ◌≡◌, ◌≤◌,
}
use cled.Common.Bytes.{from_be_bytes}
use cled.Lan.Error.{Result, ok, Ensures, Ensures-weaker, Ensures-nothing, >>=-Ensures, >>=_same}
use cled.Lan.Wire.{max_message_bytes}
use cled.Lan.Noise.{read_exact, read_frame, header, receive, complete, finish, recv_loop, recv}

read_exact_rest : (n : ℕ) (r : List ℕ) → Ensures (λ x. n + length x.1 ≤ length r) (read_exact n r)
read_exact_rest n r = elim (Bool-cases (leb n (length r))) [
  | inl le ↦ rw le (omega (arith, leb→le n (length r) le, length-drop n r))
  | inr gt ↦ rw gt tt
]

-- A frame takes its two bytes of length, at least.
read_frame_shorter : (r : List ℕ) → Ensures (λ frame. 2 + length frame.1 ≤ length r) (read_frame r)
unfolding read_frame
read_frame_shorter r =
    >>=-Ensures (λ h. 2 + length h.1 ≤ length r) _ (read_exact 2 r) _ (read_exact_rest 2 r)
      (λ h le.
        Ensures-weaker _ _ (read_exact (from_be_bytes h.0) h.1)
          (read_exact_rest (from_be_bytes h.0) h.1) (λ x few. omega arith))

-- The announced length is at most 16 MiB.
header_bounded : (chunk : List ℕ) → Ensures (λ len. len ≤ max_message_bytes) (header chunk)
unfolding header
header_bounded chunk = elim (Bool-cases (leb 4 (length chunk))) [
  | inr gt ↦ rw gt tt
  | inl le ↦ elim (Bool-cases (ltb max_message_bytes (from_be_bytes (take 4 chunk)))) [
    | inl large ↦ rw (le, large) tt
    | inr small ↦ rw (le, small) (ground arith)
  ]
]

receive_bounded :
    (expected : Option ℕ) (message chunk : List ℕ)
    → ((len : ℕ) → expected ≡ some len → len ≤ max_message_bytes)
    → Ensures (λ got. got.0 ≤ max_message_bytes) (receive expected message chunk)
unfolding receive
receive_bounded none message chunk h =
    >>=-Ensures _ _ (header chunk) _ (header_bounded chunk) (λ len le. le)
receive_bounded (some len) message chunk h = h len refl

complete-length :
    (len : ℕ) (message : List ℕ)
    → Ensures
        (λ done. (whole : List ℕ) → done ≡ some whole → length whole ≡ len)
        (complete len message)
unfolding complete
complete-length len message = elim (Bool-cases (ltb len (length message))) [
  | inl long ↦ rw long tt
  | inr short ↦ elim (Bool-cases (length message == len)) [
    | inl same ↦ rw (short, same) (λ whole e. ground arith)
    | inr other ↦ rw (short, other) (λ whole e. cc)
  ]
]

module _ {S : Type 0} where
  finish_bounded :
      (s : S) (len : ℕ) (message r : List ℕ) (next : Result (S × List ℕ × List ℕ))
      → len ≤ max_message_bytes
      → Ensures (λ x. length x.1 ≤ max_message_bytes) next
      → Ensures (λ x. length x.1 ≤ max_message_bytes) (finish s len message r next)
  unfolding finish
  finish_bounded s len message r next small h =
      >>=-Ensures _ _ (complete len message) _ (complete-length len message)
        (λ done e. finishes done e)
    where
      finishes :
          (done : Option (List ℕ))
          → ((whole : List ℕ) → done ≡ some whole → length whole ≡ len)
          → Ensures
              (λ x. length x.1 ≤ max_message_bytes)
              (elim done as (λ o. Result (S × List ℕ × List ℕ)) [
                | some whole ↦ ok (s, whole, r)
                | none ↦ next
              ])
      finishes none e = h
      finishes (some whole) e = omega (arith, e whole refl)

module _ {S : Type 0} (write_message read_message : S → List ℕ → Result (S × List ℕ)) where
  recv_loop_bounded :
      (fuel : ℕ) (s : S) (expected : Option ℕ) (message r : List ℕ)
      → ((len : ℕ) → expected ≡ some len → len ≤ max_message_bytes)
      → Ensures
          (λ x. length x.1 ≤ max_message_bytes)
          (recv_loop write_message read_message fuel s expected message r)
  unfolding recv_loop
  recv_loop_bounded zero s expected message r h = tt
  recv_loop_bounded (suc fuel) s expected message r h =
      >>=-Ensures (λ _. Unit {0}) _ (read_frame r) _ (Ensures-nothing (read_frame r))
        (λ frame _.
          >>=-Ensures (λ _. Unit {0}) _ (read_message s frame.0) _
            (Ensures-nothing (read_message s frame.0))
            (λ plain _.
              >>=-Ensures _ _ (receive expected message plain.1) _
                (receive_bounded expected message plain.1 h)
                (λ got small. finish_bounded plain.0 got.0 got.1 frame.1 _ small (
                  recv_loop_bounded fuel plain.0 (some got.0) got.1 frame.1
                    (λ len e. subst (λ n. n ≤ max_message_bytes) (ground arith) small)))))

  -- Whatever the other side sends, no message of more than 16 MiB is received.
  pub recv_bounded :
      (s : S) (r : List ℕ)
      → Ensures (λ x. length x.1 ≤ max_message_bytes) (recv write_message read_message s r)
  unfolding recv
  recv_bounded s r = recv_loop_bounded (suc (length r)) s none [] r (λ len e. cc)

  recv_loop_same :
      (f g : ℕ) (s : S) (expected : Option ℕ) (message r : List ℕ)
      → length r < f
      → length r < g
      → recv_loop write_message read_message f s expected message r
        ≡ recv_loop write_message read_message g s expected message r
  unfolding recv_loop
  recv_loop_same zero g s expected message r hf hg = absurd (omega arith)
  recv_loop_same (suc f) zero s expected message r hf hg = absurd (omega arith)
  recv_loop_same (suc f) (suc g) s expected message r hf hg =
      >>=_same _ (read_frame r) _ _ (read_frame_shorter r) (λ frame few.
        >>=_same _ (read_message s frame.0) _ _ (Ensures-nothing (read_message s frame.0))
          (λ plain _.
            >>=_same _ (receive expected message plain.1) _ _
              (Ensures-nothing (receive expected message plain.1))
              (λ got _. ap (finish plain.0 got.0 got.1 frame.1) (
                recv_loop_same f g plain.0 (some got.0) got.1 frame.1 (omega arith)
                  (omega arith)))))

  -- The fuel of the loop is enough: more of it changes nothing, whatever waits in the stream, since
  -- each round takes at least two bytes of it.
  pub recv_loop_enough :
      (fuel : ℕ) (s : S) (expected : Option ℕ) (message r : List ℕ)
      → length r < fuel
      → recv_loop write_message read_message fuel s expected message r
        ≡ recv_loop write_message read_message (suc (length r)) s expected message r
  recv_loop_enough fuel s expected message r h =
      recv_loop_same fuel (suc (length r)) s expected message r h (omega arith)
