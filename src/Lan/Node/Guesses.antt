-- ===== src/Lan/Node/Guesses.antt =====
-- Guessing a pairing code of crates/cled-lan/src/node.rs: how often one code can be tried.
use cled.Common.{
  Bool, Bool-cases, List, Option, [], arith, false, if◌then◌else◌, inl, inr, leb, list_eq, ltb,
  nat_eq, none, not, refl, some, subst, sym, true, ℕ, ◌&&◌, ◌+◌, ◌-◌, ◌<◌, ◌==◌, ◌∙◌, ◌∷◌, ◌≡◌, ◌≤◌,
}
use cled.Sync.Item.{DeviceId}
use cled.Lan.Addr.{SocketAddr}
use cled.Lan.Code.{PairingCode}
use cled.Lan.Error.{Result, ok, err}
use cled.Lan.Wire.{Message, Hello}
use cled.Lan.Node.{Node, PairingSession, Instant, Event, max_pairing_failures, send_to_all}
use cled.Lan.Node.Group.{send_roster_to_all, roster_message, trigger_dial, send_some}
use cled.Lan.Node.Pairing.{
  greet, conclude, answer, accept_pairing, count_failure, end_pairing, store_peer, welcome,
}

-- An attempt at pairing that comes to the device with the code.
pub record Attempt : Type 0 where
  pub now : Instant
  pub ended : Instant
  pub exchange : PairingCode → Result (Hello × ℕ)
  pub fresh : Result PairingCode
  pub address : Option SocketAddr
  pub joiner : DeviceId
  pub now_ms : ℕ
  pub disk : Bool

-- Whether an attempt is run with the code.
abbrev pub tries : PairingCode → Option PairingSession → Instant → ℕ
tries code none now = 0
tries code (some s) now = if not (ltb s.expires_at now) && s.code == code then 1 else 0

-- The attempts that are left to the code.
abbrev chances : PairingCode → Option PairingSession → ℕ
chances code none = 0
chances code (some s) = if s.code == code then max_pairing_failures - s.failures else 0

abbrev IsOpen : Option PairingSession → Type 0
IsOpen none = Unit {0}
IsOpen (some s) = s.failures < max_pairing_failures

-- Each new code that is made can be made, and is another one.
abbrev AreOther : PairingCode → List Attempt → Type 0
AreOther code [] = Unit {0}
AreOther code (a ∷ later) =
    ((fresh : PairingCode) × (a.fresh ≡ ok fresh) × ((fresh == code) ≡ false)) × AreOther code later

end_pairing-pairing : (n : Node) → (end_pairing n).pairing ≡ none
unfolding end_pairing
end_pairing-pairing n = elim (Bool-cases n.has_discovery) [
  | inl on ↦ rw on refl
  | inr off ↦ rw off refl
]

store_peer-pairing :
    (n : Node) (id : DeviceId) (h : Hello) (key : ℕ) (a : Option SocketAddr) (now_ms : ℕ)
    (disk : Bool)
    → (store_peer n id h key a now_ms disk).0.pairing ≡ n.pairing
unfolding store_peer
store_peer-pairing n id h key a now_ms disk = refl

count_failure-chances :
    (n : Node) (code fresh : PairingCode) (active : PairingSession) (now : Instant)
    → active.failures < max_pairing_failures
    → (fresh == code) ≡ false
    → IsOpen (count_failure n active now (ok fresh)).pairing
      × (chances code (count_failure n active now (ok fresh)).pairing
          ≤ (if active.code == code then max_pairing_failures - active.failures - 1 else 0))
unfolding count_failure
count_failure-chances n code fresh active now few other =
    elim (Bool-cases (leb max_pairing_failures (active.failures + 1))) [
      | inl burned ↦ rw (burned, count_failure, other) (omega arith, omega arith)
      | inr counted ↦ rw (counted, count_failure) (ground arith, ground arith)
    ]

use_one :
    (late same : Bool) (x y : ℕ)
    → y < max_pairing_failures
    → x ≤ (if same then max_pairing_failures - y - 1 else 0)
    → (if not late && same then 1 else 0) + x ≤ (if same then max_pairing_failures - y else 0)
use_one true true x y few h = omega arith
use_one true false x y few h = omega arith
use_one false true x y few h = omega arith
use_one false false x y few h = omega arith

module _ (to_stdvec : Message → Result (List ℕ)) where
  abbrev pub attempt : Node → Attempt → Node
  attempt n a =
      (accept_pairing to_stdvec n a.now a.ended a.exchange a.fresh a.address a.joiner a.now_ms
        a.disk).0

  -- How many of the attempts are run with the code.
  abbrev pub guesses : PairingCode → Node → List Attempt → ℕ
  guesses code n [] = 0
  guesses code n (a ∷ later) = tries code n.pairing a.now + guesses code (attempt n a) later

  send_some-pairing : (n : Node) (o : Option (List ℕ)) → (send_some n o).pairing ≡ n.pairing
  unfolding send_to_all
  send_some-pairing n none = refl
  send_some-pairing n (some bytes) = refl

  welcome-pairing :
      (n : Node) (id : DeviceId) (news : List Event)
      → (welcome to_stdvec n id news).pairing ≡ n.pairing
  unfolding welcome send_roster_to_all trigger_dial
  welcome-pairing n id news = send_some-pairing n (roster_message to_stdvec n)

  -- An attempt uses up a chance if it is run with the code, and gives none back.
  unfoldable Uses : PairingCode → Instant → (before after : Option PairingSession) → Type 0
  Uses code now before after =
      IsOpen after × (tries code before now + chances code after ≤ chances code before)

  Uses-none : (code : PairingCode) (now : Instant) → Uses code now none none
  unfolding Uses
  Uses-none code now = (tt, omega arith)

  Uses-gone :
      (code : PairingCode) (now : Instant) (active : PairingSession)
      → IsOpen (some active)
      → Uses code now (some active) none
  unfolding Uses
  Uses-gone code now active few = (tt, ground (arith, few))

  greet-pairing :
      (joiner : DeviceId) (h : Hello) (r : Node × Result (Unit {0}))
      → (greet to_stdvec joiner h r).0.pairing ≡ r.0.pairing
  unfolding greet
  greet-pairing joiner h (n, err e) = refl
  greet-pairing joiner h (n, ok done) = welcome-pairing n joiner _

  conclude-Uses :
      (code fresh : PairingCode) (n : Node) (a : Attempt) (active : PairingSession)
      (r : Result (Hello × ℕ))
      → active.failures < max_pairing_failures
      → ltb active.expires_at a.now ≡ false
      → (fresh == code) ≡ false
      → Uses code a.now
          (some active)
          (conclude to_stdvec n active a.ended
            (ok fresh)
            a.address
            a.joiner
            a.now_ms
            a.disk
            r).0.pairing
  unfolding conclude Uses
  conclude-Uses code fresh n a active (err e) few early other =
      let (still, left) = count_failure-chances n code fresh active a.ended few other in
      (
        still,
        use_one (ltb active.expires_at a.now) (active.code == code) _ active.failures few left,
      )
  conclude-Uses code fresh n a active (ok (h, key)) few early other =
      subst (Uses code a.now (some active))
        (sym (
          greet-pairing a.joiner h
            (store_peer (end_pairing n) a.joiner h key a.address a.now_ms a.disk)
          ∙ store_peer-pairing (end_pairing n) a.joiner h key a.address a.now_ms a.disk
          ∙ end_pairing-pairing n))
        (Uses-gone code a.now active few)

  answer-Uses :
      (code fresh : PairingCode) (n : Node) (a : Attempt) (o : Option PairingSession)
      → IsOpen o
      → (fresh == code) ≡ false
      → o ≡ n.pairing
      → Uses code a.now o
          (answer to_stdvec n a.now a.ended a.exchange
            (ok fresh)
            a.address
            a.joiner
            a.now_ms
            a.disk
            o).0.pairing
  unfolding answer
  answer-Uses code fresh n a none few other same =
      subst (Uses code a.now none) same (Uses-none code a.now)
  answer-Uses code fresh n a (some active) few other same =
      elim (Bool-cases (ltb active.expires_at a.now)) [
        | inl late ↦ rw late (
            subst (Uses code a.now (some active)) (sym (end_pairing-pairing n))
              (Uses-gone code a.now active few))
        | inr early ↦
            rw early (conclude-Uses code fresh n a active (a.exchange active.code) few early other)
      ]

  attempt-Uses :
      (code fresh : PairingCode) (n : Node) (a : Attempt)
      → IsOpen n.pairing
      → a.fresh ≡ ok fresh
      → (fresh == code) ≡ false
      → Uses code a.now n.pairing (attempt n a).pairing
  unfolding accept_pairing
  attempt-Uses code fresh n a few made other =
      rw made (answer-Uses code fresh n a n.pairing few other refl)

  guesses-chances :
      (code : PairingCode) (n : Node) (later : List Attempt)
      → IsOpen n.pairing
      → AreOther code later
      → guesses code n later ≤ chances code n.pairing
  unfolding Uses
  guesses-chances code n [] few other = omega arith
  guesses-chances code n (a ∷ later) few ((fresh, made, apart), others) =
      let (still, used) = attempt-Uses code fresh n a few made apart in
      omega (arith, used, guesses-chances code (attempt n a) later still others)

  chances-le :
      (code : PairingCode) (o : Option PairingSession) → chances code o ≤ max_pairing_failures
  chances-le code none = omega arith
  chances-le code (some s) = ground arith

  -- A code is tried at most three times, whoever tries it: after the third failure another code is
  -- shown. The code was just made or has failed less than three times, and each new code that is made
  -- is another one.
  pub guesses-le :
      (code : PairingCode) (n : Node) (later : List Attempt)
      → IsOpen n.pairing
      → AreOther code later
      → guesses code n later ≤ max_pairing_failures
  guesses-le code n later few other =
      omega (arith, guesses-chances code n later few other, chances-le code n.pairing)
