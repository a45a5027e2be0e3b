-- ===== src/Lan/Node/Waiting.antt =====
-- The backoff of crates/cled-lan/src/node.rs after failed attempts to connect.
use cled.Common.{
  Bool-cases, List, Option, [], ap, arith, inl, inr, leb, leb→le, length, min, nat_eq, none, refl,
  some, suc, sym, zero, ℕ, ◌*◌, ◌^◌, ◌∙◌, ◌∷◌, ◌≡◌, ◌≤◌,
}
use cled.Common.Map.{get-insert_same}
use native.Mathlib.Nat.{pow-suc, pow-succ'}
use cled.Common.Map
use cled.Common.Map.{get-insert_same}
use cled.Sync.Item.{DeviceId}
use cled.Lan.Error.{LanError, err}
use cled.Lan.Node.{Node, Instant, second, max_backoff, Backoff}
use cled.Lan.Node.Dialing.{end_dial, back_off}

-- Attempts that fail one after another, each with the instant of its end.
abbrev failed_dials : Node → DeviceId → LanError → List Instant → Node
failed_dials n peer e [] = n
failed_dials n peer e (t ∷ ts) = failed_dials (end_dial n peer (err e) t) peer e ts

abbrev delay_in : Option Backoff → ℕ
delay_in none = second
delay_in (some b) = b.delay

-- The delay that is kept for a peer, a second if none is.
abbrev delay_of : Node → DeviceId → ℕ
delay_of n peer = delay_in (Map.get n.backoff peer)

delay_in-back_off :
    (entry : Option Backoff) (t : Instant)
    → (back_off entry t).delay ≡ min (delay_in entry * 2) max_backoff
unfolding back_off
delay_in-back_off none t = refl
delay_in-back_off (some b) t = refl

delay_of-end_dial :
    (n : Node) (peer : DeviceId) (e : LanError) (t : Instant)
    → delay_of (end_dial n peer (err e) t) peer ≡ min (delay_of n peer * 2) max_backoff
unfolding end_dial
delay_of-end_dial n peer e t =
    ap delay_in (get-insert_same n.backoff peer (back_off (Map.get n.backoff peer) t))
    ∙ delay_in-back_off (Map.get n.backoff peer) t

le-mul : (p x : ℕ) → 1 ≤ p → x ≤ p * x
le-mul zero x h = absurd (omega arith)
le-mul (suc p) x h = omega arith

min-double : (p d b : ℕ) → 1 ≤ p → min (p * min (d * 2) b) b ≡ min (2 * p * d) b
min-double p d b h = elim (Bool-cases (leb (d * 2) b)) [
  | inl below ↦
      let same : min (d * 2) b ≡ d * 2 = omega (arith, leb→le (d * 2) b below) in
      let ring : p * (d * 2) ≡ 2 * p * d = omega arith in rw same (ap (λ x. min x b) ring)
  | inr over ↦
      let same : min (d * 2) b ≡ b = ground (arith, over) in
      let ring : p * (d * 2) ≡ 2 * p * d = omega arith in
      let more : b ≤ d * 2 = ground (arith, over) in
      rw same (omega (arith, le-mul p b h, le-mul p (d * 2) h, ring, more))
]

pow_pos : (k : ℕ) → 1 ≤ 2 ^ k
pow_pos zero = omega arith
pow_pos (suc k) = omega (arith, pow-suc 2 k, pow_pos k)

-- The delay doubles with each failure, up to 30 seconds: after `k` failures in a row it is `2 ^ k` times
-- what it was, or 30 seconds if that is less, if it was at most 30 seconds before.
delay_of-failed_dials :
    (n : Node) (peer : DeviceId) (e : LanError) (ts : List Instant)
    → delay_of n peer ≤ max_backoff
    → delay_of (failed_dials n peer e ts) peer ≡ min (2 ^ length ts * delay_of n peer) max_backoff
delay_of-failed_dials n peer e [] small = omega arith
delay_of-failed_dials n peer e (t ∷ ts) small =
    delay_of-failed_dials (end_dial n peer (err e) t) peer e ts
      (omega (arith, delay_of-end_dial n peer e t))
    ∙ (ap (λ d. min (2 ^ length ts * d) max_backoff) (delay_of-end_dial n peer e t)
        ∙ min-double (2 ^ length ts) (delay_of n peer) max_backoff (pow_pos (length ts))
        ∙ ap (λ p. min (p * delay_of n peer) max_backoff) (sym (pow-succ' 2 (length ts))))
