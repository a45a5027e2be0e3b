-- ===== src/Lan/Node/Crossing.antt =====
-- Two connections to one peer in crates/cled-lan/src/node.rs: which one is kept, and the end of the
-- other one.
use cled.Common.{
  Bool, Bool-cases, Option-cases, ap, arith, false, if◌then◌else◌, inl, inr, is_some, ltb, min,
  nat_eq, nat_eq_iff, none, not, refl, some, sym, true, ℕ, ◌==◌, ◌||◌, ◌∙◌, ◌≡◌, ◌≢◌,
}
use mathlib.Core.Bool.{false≢true}
use cled.Common.Map
use cled.Common.Map.{get-insert}
use cled.Sync.Item.{DeviceId}
use cled.Lan.Peers
use cled.Lan.Node.{enter, send, close, Node, Conn, Instant, register, unregister}

pub register_free :
    (n : Node) (peer : DeviceId) (c : Conn)
    → is_some (Peers.get n.peers peer) ≡ true
    → Map.get n.conns peer ≡ none
    → register n peer c ≡ (enter n peer c, true)
unfolding register
register_free n peer c trusted free = rw (trusted, free) refl

pub register_taken :
    (n : Node) (peer : DeviceId) (old c : Conn)
    → is_some (Peers.get n.peers peer) ≡ true
    → Map.get n.conns peer ≡ some old
    → register n peer c ≡ (
        if old.initiator == min n.device_id peer || not (c.initiator == min n.device_id peer)
        then (n, false)
        else (enter (send n old close) peer c, true))
unfolding register
register_taken n peer old c trusted taken = rw (trusted, taken) refl

get-enter : (n : Node) (peer : DeviceId) (c : Conn) → Map.get (enter n peer c).conns peer ≡ some c
get-enter n peer c = ground (arith, get-insert n.conns peer c peer, nat_eq_iff peer peer)

-- Of two connections, the one that the preferred device started is kept, if just one of them is.
register_second :
    (n : Node) (peer : DeviceId) (c d : Conn)
    → is_some (Peers.get n.peers peer) ≡ true
    → Map.get n.conns peer ≡ none
    → (c.initiator == min n.device_id peer) ≡ not (d.initiator == min n.device_id peer)
    → Map.get (register (register n peer c).0 peer d).0.conns peer
      ≡ some (if c.initiator == min n.device_id peer then c else d)
register_second n peer c d trusted free one =
    rw
      (
        register_free n peer c trusted free,
        register_taken (enter n peer c) peer c d trusted (get-enter n peer c),
      )
      (elim (Bool-cases (c.initiator == min n.device_id peer)) [
        | inl first ↦ rw first (get-enter n peer c)
        | inr second ↦
            rw (second, d_preferred second one) (get-enter (send (enter n peer c) c close) peer d)
      ])
  where
    d_preferred : {a b : Bool} → a ≡ false → a ≡ not b → b ≡ true
    d_preferred {b = true} e o = refl
    d_preferred {b = false} e o = absurd (ground (arith, sym e ∙ o))

-- Both devices dialed at once: whichever of the two connections comes first, each side keeps the one
-- that the lower device id started. The devices are paired, differ, and were not connected.
pub register_crossing :
    (n : Node) (peer : DeviceId) (mine theirs : Conn)
    → is_some (Peers.get n.peers peer) ≡ true
    → Map.get n.conns peer ≡ none
    → mine.initiator ≡ n.device_id
    → theirs.initiator ≡ peer
    → n.device_id ≢ peer
    → (Map.get (register (register n peer mine).0 peer theirs).0.conns peer
        ≡ some (if ltb n.device_id peer then mine else theirs))
      × (Map.get (register (register n peer theirs).0 peer mine).0.conns peer
          ≡ some (if ltb n.device_id peer then mine else theirs))
register_crossing n peer mine theirs trusted free m t apart = (
  register_second n peer mine theirs trusted free (ground arith) ∙ ground arith,
  register_second n peer theirs mine trusted free (ground arith) ∙ ground arith,
)

pub register_stranger :
    (n : Node) (peer : DeviceId) (c : Conn)
    → is_some (Peers.get n.peers peer) ≡ false
    → register n peer c ≡ (n, false)
unfolding register
register_stranger n peer c stranger = rw stranger refl

register_over :
    (n : Node) (peer : DeviceId) (old c : Conn) (keep : Bool)
    → register n peer c ≡ (if keep then (n, false) else (enter (send n old close) peer c, true))
    → (register n peer c).1 ≡ true
    → Map.get (register n peer c).0.conns peer ≡ some c
register_over n peer old c true e kept = absurd (false≢true (sym (ap (λ r. r.1) e) ∙ kept))
register_over n peer old c false e kept = rw e (get-enter (send n old close) peer c)

-- A connection that is kept is the connection of its peer.
get-register :
    (n : Node) (peer : DeviceId) (c : Conn)
    → (register n peer c).1 ≡ true
    → Map.get (register n peer c).0.conns peer ≡ some c
get-register n peer c kept = elim (Bool-cases (is_some (Peers.get n.peers peer))) [
  | inr stranger ↦
      absurd (false≢true (sym (ap (λ r. r.1) (register_stranger n peer c stranger)) ∙ kept))
  | inl trusted ↦ elim (Option-cases (Map.get n.conns peer)) [
    | inl free ↦ rw (register_free n peer c trusted free) (get-enter n peer c)
    | inr (old, taken) ↦
        register_over n peer old c _ (register_taken n peer old c trusted taken) kept
  ]
]

unregister_other :
    (n : Node) (peer : DeviceId) (c : Conn) (conn_id : ℕ) (now : Instant)
    → Map.get n.conns peer ≡ some c
    → c.id ≢ conn_id
    → unregister n peer conn_id now ≡ n
unfolding unregister
unregister_other n peer c conn_id now there apart = rw (unregister, there) (ground arith)

-- The end of a connection takes out that connection only: a newer one of the same peer, which was
-- kept, stays.
unregister_stale :
    (n : Node) (peer : DeviceId) (older newer : Conn) (now : Instant)
    → older.id ≢ newer.id
    → (register n peer newer).1 ≡ true
    → Map.get (unregister (register n peer newer).0 peer older.id now).conns peer ≡ some newer
unregister_stale n peer older newer now apart kept =
    let there = get-register n peer newer kept in
    ap (λ (m : Node). Map.get m.conns peer)
      (unregister_other (register n peer newer).0 peer newer older.id now there
        (λ e. apart (sym e)))
    ∙ there
