-- ===== src/Lan/Noise/Handshake/Rounds.antt =====
-- The loop of `handshake` of crates/cled-lan/src/noise.rs ends.
use cled.Common.{
  Bool-cases, List, arith, false, inl, inr, nat_eq, refl, suc, sym, true, zero, ℕ, ◌∙◌, ◌≡◌, ◌≤◌,
}
use cled.Lan.Error.{Result, ok, err, Ensures, >>=-Ensures, >>=_same, Ensures-nothing, ◌>>=◌}
use cled.Lan.Noise.{write_frame, read_frame}
use cled.Lan.Noise.Handshake.{
  HandshakeState, Ends, IsPattern, with_written, write_turn, read_turn, exchange_turn, exchange,
}

-- A result that is known ensures what follows from it.
Ensures-of {ℓ} :
    {A : Type ℓ} (P : A → Type 0) (r : Result A) → ((a : A) → r ≡ ok a → P a) → Ensures P r
Ensures-of P (ok a) each = each a refl
Ensures-of P (err e) each = tt

module _ (S : Type 0) (h : HandshakeState S) (left : S → ℕ) (p : IsPattern S h left) where
  -- One message less is left.
  Closer : Ends S → Ends S → Type 0
  Closer e e' = left e.state ≡ suc (left e'.state)

  with_written-Closer :
      (e : Ends S) (s : S) (w : List ℕ × Result (Unit {0}))
      → left e.state ≡ suc (left s)
      → Ensures (Closer e) (with_written e s w)
  unfolding Closer
  with_written-Closer e s (writer, ok done) c = c
  with_written-Closer e s (writer, err why) c = tt

  write_turn-Closer : (e : Ends S) → Ensures (Closer e) (write_turn h e)
  unfolding write_turn
  write_turn-Closer e =
      >>=-Ensures (λ out. left e.state ≡ suc (left out.0)) (Closer e) (h.write_message e.state) _
        (Ensures-of _ (h.write_message e.state) (λ out w. p.writes e.state out.0 out.1 w))
        (λ out c. with_written-Closer e out.0 (write_frame e.writer out.1) c)

  read_turn-Closer : (e : Ends S) → Ensures (Closer e) (read_turn h e)
  unfolding read_turn Closer
  read_turn-Closer e =
      >>=-Ensures (λ _. Unit {0}) (Closer e) (read_frame e.stream) _
        (Ensures-nothing (read_frame e.stream))
        (λ frame _.
          >>=-Ensures (λ s. left e.state ≡ suc (left s)) (Closer e) (h.read_message e.state frame.0)
            _ (Ensures-of _ (h.read_message e.state frame.0) (λ s r. p.reads e.state s frame.0 r))
            (λ s c. c))

  exchange_turn-Closer : (e : Ends S) → Ensures (Closer e) (exchange_turn h e)
  unfolding exchange_turn
  exchange_turn-Closer e = elim (Bool-cases (h.is_my_turn e.state)) [
    | inl mine ↦ rw (exchange_turn, mine) (write_turn-Closer e)
    | inr theirs ↦ rw (exchange_turn, theirs) (read_turn-Closer e)
  ]

  exchange-finished :
      (fuel : ℕ) (e : Ends S) → h.is_handshake_finished e.state ≡ true → exchange h fuel e ≡ ok e
  unfolding exchange
  exchange-finished zero e f = rw (exchange, f) refl
  exchange-finished (suc fuel) e f = rw (exchange, f) refl

  exchange-unfinished :
      (fuel : ℕ) (e : Ends S)
      → h.is_handshake_finished e.state ≡ false
      → exchange h (suc fuel) e ≡ (exchange_turn h e >>= exchange h fuel)
  unfolding exchange
  exchange-unfinished fuel e f = rw (exchange, f) refl

  exchange_done :
      (fuel more : ℕ) (e : Ends S) → left e.state ≡ 0 → exchange h fuel e ≡ exchange h more e
  exchange_done fuel more e z =
      let f : h.is_handshake_finished e.state ≡ true = ground (arith, z, p.finished e.state) in
      exchange-finished fuel e f ∙ sym (exchange-finished more e f)

  -- Fuel for the messages that are left is enough: more changes nothing in what the handshake comes to.
  exchange_enough :
      (fuel more : ℕ) (e : Ends S)
      → left e.state ≤ fuel
      → left e.state ≤ more
      → exchange h fuel e ≡ exchange h more e
  unfolding Closer
  exchange_enough zero more e lf lm = exchange_done zero more e (omega arith)
  exchange_enough (suc fuel) zero e lf lm = exchange_done (suc fuel) zero e (omega arith)
  exchange_enough (suc fuel) (suc more) e lf lm =
      elim (Bool-cases (h.is_handshake_finished e.state)) [
        | inl f ↦ exchange-finished (suc fuel) e f ∙ sym (exchange-finished (suc more) e f)
        | inr g ↦
            exchange-unfinished fuel e g
            ∙ >>=_same (Closer e) (exchange_turn h e) (exchange h fuel) (exchange h more)
                (exchange_turn-Closer e)
                (λ e' c. exchange_enough fuel more e' (omega (arith, lf, c)) (omega (arith, lm, c)))
            ∙ sym (exchange-unfinished more e g)
      ]
