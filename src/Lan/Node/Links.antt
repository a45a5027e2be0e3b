-- ===== src/Lan/Node/Links.antt =====
-- What the handlers of crates/cled-lan/src/node.rs that end connections leave of them and of the peers.
use cled.Common.{
  Bool, List, Option, [], ap, arith, contains, false, is_some, nat_eq, none, refl, some, sym, true,
  ℕ, ◌==◌, ◌∙◌, ◌∷◌, ◌≡◌,
}
use cled.Common.Map
use cled.Common.Map.{get-remove, get-insert, get-remove_apart}
use cled.Sync.Item.{DeviceId}
use cled.Lan.Error.{Result, ok, err}
use cled.Lan.Wire.{Message, bye, unpaired, encode}
use cled.Lan.Node.{Node, Conn, send_to_all}
use cled.Lan.Node.Group.{
  tell, hang_up, disconnect_removed, disconnect_all, redial, redial_all, trigger_dial, send_some,
}

abbrev pub connected : Node → DeviceId → Bool
connected n id = is_some (Map.get n.conns id)

tell-conns :
    (n : Node) (o : Option Conn) (notice : Result (List ℕ)) → (tell n o notice).conns ≡ n.conns
tell-conns n none notice = refl
tell-conns n (some conn) (err e) = refl
tell-conns n (some conn) (ok bytes) = refl

tell-peers :
    (n : Node) (o : Option Conn) (notice : Result (List ℕ)) → (tell n o notice).peers ≡ n.peers
tell-peers n none notice = refl
tell-peers n (some conn) (err e) = refl
tell-peers n (some conn) (ok bytes) = refl

hang_up-get :
    (n : Node) (id : DeviceId) (o : Option Conn) (j : DeviceId)
    → connected (hang_up n id o) j ≡ true
    → connected n j ≡ true
hang_up-get n id none j h = h
hang_up-get n id (some conn) j h = ground (arith, h, get-remove n.conns id j)

hang_up-peers : (n : Node) (id : DeviceId) (o : Option Conn) → (hang_up n id o).peers ≡ n.peers
hang_up-peers n id none = refl
hang_up-peers n id (some conn) = refl

pub redial_all-get :
    (ids : List DeviceId) (n : Node) (j : DeviceId)
    → connected (redial_all n ids) j ≡ true
    → connected n j ≡ true
unfolding redial_all redial trigger_dial
redial_all-get [] n j h = h
redial_all-get (id ∷ ids) n j h =
    hang_up-get n id (Map.get n.conns id) j (redial_all-get ids (redial n id) j h)

hang_up-kept :
    (n : Node) (id : DeviceId) (o : Option Conn) (j : DeviceId)
    → (id == j) ≡ false
    → connected n j ≡ true
    → connected (hang_up n id o) j ≡ true
hang_up-kept n id none j apart h = h
hang_up-kept n id (some conn) j apart h = ap is_some (get-remove_apart n.conns id j apart) ∙ h

-- Other devices stay connected.
pub redial_all-kept :
    (ids : List DeviceId) (n : Node) (j : DeviceId)
    → contains ids j ≡ false
    → connected n j ≡ true
    → connected (redial_all n ids) j ≡ true
unfolding redial_all redial trigger_dial
redial_all-kept [] n j others h = h
redial_all-kept (id ∷ ids) n j others h =
    redial_all-kept ids (redial n id) j (ground (arith, others))
      (hang_up-kept n id (Map.get n.conns id) j (ground (arith, others)) h)

pub redial_all-peers : (ids : List DeviceId) (n : Node) → (redial_all n ids).peers ≡ n.peers
unfolding redial_all redial trigger_dial
redial_all-peers [] n = refl
redial_all-peers (id ∷ ids) n =
    redial_all-peers ids (redial n id) ∙ hang_up-peers n id (Map.get n.conns id)

pub send_some-conns : (n : Node) (o : Option (List ℕ)) → (send_some n o).conns ≡ n.conns
unfolding send_to_all
send_some-conns n none = refl
send_some-conns n (some bytes) = refl

pub send_some-peers : (n : Node) (o : Option (List ℕ)) → (send_some n o).peers ≡ n.peers
unfolding send_to_all
send_some-peers n none = refl
send_some-peers n (some bytes) = refl

module _ (to_stdvec : Message → Result (List ℕ)) where
  pub disconnect_removed-get :
      (n : Node) (id j : DeviceId)
      → connected (disconnect_removed to_stdvec n id) j ≡ true
      → (connected n j ≡ true) × ((id == j) ≡ false)
  unfolding disconnect_removed
  disconnect_removed-get n id j h =
      let notice = encode to_stdvec (bye unpaired) in
      let there =
        ap (λ c. is_some (Map.get (Map.remove c id) j))
          (sym (tell-conns n (Map.get n.conns id) notice))
        ∙ h in
      (
        ground (arith, there, get-remove n.conns id j),
        ground (arith, there, get-remove n.conns id j),
      )

  pub disconnect_all-get :
      (ids : List DeviceId) (n : Node) (j : DeviceId)
      → connected (disconnect_all to_stdvec n ids) j ≡ true
      → (connected n j ≡ true) × (contains ids j ≡ false)
  unfolding disconnect_all
  disconnect_all-get [] n j h = (h, refl)
  disconnect_all-get (id ∷ ids) n j h =
      let (still, others) = disconnect_all-get ids (disconnect_removed to_stdvec n id) j h in
      let (there, apart) = disconnect_removed-get n id j still in (there, rw (apart, others) refl)

  disconnect_removed-kept :
      (n : Node) (id j : DeviceId)
      → (id == j) ≡ false
      → connected n j ≡ true
      → connected (disconnect_removed to_stdvec n id) j ≡ true
  unfolding disconnect_removed
  disconnect_removed-kept n id j apart h =
      let told = tell n (Map.get n.conns id) (encode to_stdvec (bye unpaired)) in
      ap is_some (get-remove_apart told.conns id j apart)
      ∙ ap (λ c. is_some (Map.get c j))
          (tell-conns n (Map.get n.conns id) (encode to_stdvec (bye unpaired)))
      ∙ h

  pub disconnect_all-kept :
      (ids : List DeviceId) (n : Node) (j : DeviceId)
      → contains ids j ≡ false
      → connected n j ≡ true
      → connected (disconnect_all to_stdvec n ids) j ≡ true
  unfolding disconnect_all
  disconnect_all-kept [] n j others h = h
  disconnect_all-kept (id ∷ ids) n j others h =
      disconnect_all-kept ids (disconnect_removed to_stdvec n id) j (ground (arith, others))
        (disconnect_removed-kept n id j (ground (arith, others)) h)

  pub disconnect_all-peers :
      (ids : List DeviceId) (n : Node) → (disconnect_all to_stdvec n ids).peers ≡ n.peers
  unfolding disconnect_all disconnect_removed
  disconnect_all-peers [] n = refl
  disconnect_all-peers (id ∷ ids) n =
      disconnect_all-peers ids (disconnect_removed to_stdvec n id)
      ∙ tell-peers n (Map.get n.conns id) (encode to_stdvec (bye unpaired))

  pub disconnect_removed-peers :
      (n : Node) (id : DeviceId) → (disconnect_removed to_stdvec n id).peers ≡ n.peers
  unfolding disconnect_removed
  disconnect_removed-peers n id =
      tell-peers n (Map.get n.conns id) (encode to_stdvec (bye unpaired))
