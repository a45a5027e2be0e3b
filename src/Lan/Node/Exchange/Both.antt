-- ===== src/Lan/Node/Exchange/Both.antt =====
-- What a pairing leaves on both devices, in crates/cled-lan/src/node.rs.
use cled.Common.{
  List, Option, [], ap, arith, drop, false, find, ltb, nat_eq, none, not, refl, retain, some, true,
  ℕ, ◌++◌, ◌∙◌, ◌∷◌, ◌≡◌,
}
use cled.Lan.Node.Exchange.Paired.{keyed, listener_key-joiner_sends, joiner_key-listener_sends}
use cled.Lan.Node.Exchange.{
  Spake2, Keyed, IsSpake2, pairing_exchange_joiner, pairing_exchange, joiner_key, or_wrong_code,
  listener_key, listener_sends, joiner_sends,
}
use cled.Sync.Item.{DeviceId}
use cled.Lan.Addr.{SocketAddr}
use cled.Lan.Code.{PairingCode}
use cled.Lan.Error.{Result, ok, err}
use cled.Lan.Wire.{Message, Hello}
use cled.Lan.Peers.{Peer, PeerStore, get, upsert, save, is_peer}
use cled.Lan.Node.{Node, Event, PairingSession, Instant, send_to_all}
use cled.Lan.Node.Group.{send_roster_to_all, send_some, roster_message, trigger_dial}
use cled.Lan.Node.Pairing.{
  store_peer, end_pairing, welcome, greet, conclude, answer, accept_pairing, join_pairing_over,
}

-- The key of a paired device.
abbrev pub key_of : Option Peer → Option ℕ
key_of none = none
key_of (some peer) = some peer.public_key

abbrev pub known_key : Node → DeviceId → Option ℕ
known_key n id = key_of (get n.peers id)

send_some-peers : (n : Node) (bytes : Option (List ℕ)) → (send_some n bytes).peers ≡ n.peers
unfolding send_to_all
send_some-peers n none = refl
send_some-peers n (some bytes) = refl

welcome-peers :
    (to_stdvec : Message → Result (List ℕ)) (n : Node) (id : DeviceId) (news : List Event)
    → (welcome to_stdvec n id news).peers ≡ n.peers
unfolding welcome trigger_dial send_roster_to_all
welcome-peers to_stdvec n id news = send_some-peers n (roster_message to_stdvec n)

find-snoc :
    (ps : List Peer) (id : DeviceId) (peer : Peer)
    → peer.device_id ≡ id
    → find (is_peer id) (retain (λ p. not (is_peer id p)) ps ++ peer ∷ []) ≡ some peer
find-snoc [] id peer h = ground (arith, h)
find-snoc (q ∷ ps) id peer h = ground (arith, find-snoc ps id peer h)

get-upsert : (s : PeerStore) (peer : Peer) → get (upsert s peer true).0 peer.device_id ≡ some peer
unfolding get upsert save
get-upsert s peer = find-snoc s.peers peer.device_id peer refl

store_peer-known :
    (n : Node) (id : DeviceId) (hello : Hello) (key : ℕ) (address : Option SocketAddr) (now_ms : ℕ)
    → known_key (store_peer n id hello key address now_ms true).0 id ≡ some key
unfolding store_peer
store_peer-known n id hello key address now_ms = ap key_of (get-upsert n.peers _)

welcome-known :
    (to_stdvec : Message → Result (List ℕ)) (n : Node) (id : DeviceId) (news : List Event)
    → known_key (welcome to_stdvec n id news) id ≡ known_key n id
welcome-known to_stdvec n id news =
    ap (λ (s : PeerStore). key_of (get s id)) (welcome-peers to_stdvec n id news)

greet-known :
    (to_stdvec : Message → Result (List ℕ)) (id : DeviceId) (hello : Hello)
    (r : Node × Result (Unit {0}))
    → known_key (greet to_stdvec id hello r).0 id ≡ known_key r.0 id
unfolding greet
greet-known to_stdvec id hello (n, err e) = refl
greet-known to_stdvec id hello (n, ok done) = welcome-known to_stdvec n id _

-- The end of an exchange that succeeded, on both sides.
accept_pairing-known :
    (to_stdvec : Message → Result (List ℕ)) (n : Node) (active : PairingSession)
    (now ended : Instant) (exchange : PairingCode → Result (Hello × ℕ)) (fresh : Result PairingCode)
    (peer_addr : Option SocketAddr) (joiner : DeviceId) (now_ms : ℕ) (hello : Hello) (key : ℕ)
    → n.pairing ≡ some active
    → ltb active.expires_at now ≡ false
    → exchange active.code ≡ ok (hello, key)
    → known_key
        (accept_pairing to_stdvec n now ended exchange fresh peer_addr joiner now_ms true).0
        joiner
      ≡ some key
unfolding accept_pairing answer conclude
accept_pairing-known to_stdvec n active now ended exchange fresh peer_addr joiner now_ms hello key
      waiting valid done =
    ap
      (λ w.
        known_key (answer to_stdvec n now ended exchange fresh peer_addr joiner now_ms true w).0
          joiner)
      waiting
    ∙ rw (answer, valid, done)
        (greet-known to_stdvec joiner hello
            (store_peer (end_pairing n) joiner hello key peer_addr now_ms true)
          ∙ store_peer-known (end_pairing n) joiner hello key peer_addr now_ms)

join_pairing_over-known :
    (to_stdvec : Message → Result (List ℕ)) (n : Node) (listener : DeviceId)
    (exchange : DeviceId → PairingCode → Result (Hello × ℕ)) (address : Option SocketAddr)
    (code : PairingCode) (now_ms : ℕ) (hello : Hello) (key : ℕ)
    → exchange listener code ≡ ok (hello, key)
    → known_key
        (join_pairing_over to_stdvec n (some listener) none exchange address code now_ms true).0
        listener
      ≡ some key
unfolding join_pairing_over store_peer upsert save
join_pairing_over-known to_stdvec n listener exchange address code now_ms hello key done =
    rw (join_pairing_over, done)
      (welcome-known to_stdvec (store_peer n listener hello key address now_ms true).0 listener _
        ∙ store_peer-known n listener hello key address now_ms)

-- The handshake with another side, which ended its part of SPAKE2 as `theirs` and has the static key `key`: `noise` is
-- what it comes to for the keys and prologues of both.
abbrev pub meets :
    (List ℕ × List ℕ → List ℕ × List ℕ → ℕ → Result ℕ) → Result Keyed → ℕ → Keyed → Result ℕ
meets noise (err e) key mine = err e
meets noise (ok theirs) key mine = noise (mine.psk, mine.prologue) (theirs.psk, theirs.prologue) key

module _ (S : Type 0) (p : Spake2 S) (law : IsSpake2 S p) (to_stdvec : Message → Result (List ℕ))
    (noise : List ℕ × List ℕ → List ℕ × List ℕ → ℕ → Result ℕ)
    -- A handshake of two sides with one key and one prologue gives each the static key of the other.
    (completes : (mine : List ℕ × List ℕ) (key : ℕ) → noise mine mine key ≡ ok key) where
  listener_exchanged :
      (code : PairingCode) (listener joiner : DeviceId) (r s key : ℕ) (hello : Hello)
      (rest rest' : List ℕ)
      → pairing_exchange p
          (meets noise
            (joiner_key p code joiner listener s
              (drop 16 (listener_sends p code listener joiner r ++ rest')))
            key)
          (ok hello)
          listener
          joiner
          r
          (joiner_sends p code joiner listener s ++ rest)
          code
        ≡ ok (hello, key)
  unfolding pairing_exchange or_wrong_code
  listener_exchanged code listener joiner r s key hello rest rest' =
      let mine = keyed S p law code listener joiner r s rest in
      let theirs = keyed S p law code listener joiner r s rest' in
      rw (pairing_exchange, listener_key-joiner_sends S p law code listener joiner r s rest)
        (rw (joiner_key-listener_sends S p law code listener joiner r s rest')
          (rw (completes (mine.psk, mine.prologue) key) refl))

  joiner_exchanged :
      (code : PairingCode) (listener joiner : DeviceId) (r s key : ℕ) (hello : Hello)
      (rest rest' : List ℕ)
      → pairing_exchange_joiner p
          (meets noise
            (listener_key p code listener joiner r (joiner_sends p code joiner listener s ++ rest))
            key)
          (ok hello)
          joiner
          s
          (drop 16 (listener_sends p code listener joiner r ++ rest'))
          listener
          code
        ≡ ok (hello, key)
  unfolding pairing_exchange_joiner or_wrong_code
  joiner_exchanged code listener joiner r s key hello rest rest' =
      let mine = keyed S p law code listener joiner r s rest' in
      rw (pairing_exchange_joiner, joiner_key-listener_sends S p law code listener joiner r s rest')
        (rw (listener_key-joiner_sends S p law code listener joiner r s rest)
          (rw (completes (mine.psk, mine.prologue) key) refl))

  -- Two devices, of which one shows a code that has not expired and the other one types it, where each reads what the
  -- other sends and saving succeeds: afterwards each has the other one among its paired devices, with the static key of
  -- the other one.
  pub paired_both :
      (nl nj : Node) (active : PairingSession) (now ended : Instant) (fresh : Result PairingCode)
      (peer_addr address : Option SocketAddr) (now_l now_j r s key_l key_j : ℕ)
      (hello_l hello_j : Hello) (rest rest' : List ℕ)
      → nl.pairing ≡ some active
      → ltb active.expires_at now ≡ false
      → (known_key
            (accept_pairing to_stdvec nl now ended
              (pairing_exchange p
                (meets noise
                  (joiner_key p active.code nj.device_id nl.device_id s
                    (drop 16 (listener_sends p active.code nl.device_id nj.device_id r ++ rest')))
                  key_j)
                (ok hello_j)
                nl.device_id
                nj.device_id
                r
                (joiner_sends p active.code nj.device_id nl.device_id s ++ rest))
              fresh
              peer_addr
              nj.device_id
              now_l
              true).0
            nj.device_id
          ≡ some key_j)
        × (known_key
              (join_pairing_over to_stdvec nj
                (some nl.device_id)
                none
                (pairing_exchange_joiner p
                  (meets noise
                    (listener_key p active.code nl.device_id nj.device_id r
                      (joiner_sends p active.code nj.device_id nl.device_id s ++ rest))
                    key_l)
                  (ok hello_l)
                  nj.device_id
                  s
                  (drop 16 (listener_sends p active.code nl.device_id nj.device_id r ++ rest')))
                address
                active.code
                now_j
                true).0
              nl.device_id
            ≡ some key_l)
  paired_both nl nj active now ended fresh peer_addr address now_l now_j r s key_l key_j hello_l
        hello_j rest rest' waiting valid =
      (
        accept_pairing-known to_stdvec nl active now ended _ fresh peer_addr nj.device_id now_l
            hello_j key_j waiting valid
            (listener_exchanged active.code nl.device_id nj.device_id r s key_j hello_j rest rest'),
        join_pairing_over-known to_stdvec nj nl.device_id _ address active.code now_j hello_l key_l
            (joiner_exchanged active.code nl.device_id nj.device_id r s key_l hello_l rest rest'),
      )
