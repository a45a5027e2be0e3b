-- ===== src/Lan/Addr.antt =====
-- crates/cled-lan/src/addr.rs and the socket addresses of the standard library. An address's
-- bytes are one number, the highest first.
pub mod Ranking
use Prim.Native.Nat.{bit_and}
use cled.Common.{
  Bool, Eq, List, [], any, arith, false, if◌then◌else◌, leb, map, nat_eq, not, true, ℕ, ◌&&◌, ◌*◌,
  ◌++◌, ◌+◌, ◌/◌, ◌==◌, ◌^◌, ◌||◌, ◌↔◌, ◌∷◌, ◌≡◌,
}

pub data SocketAddr : Type 0 where
  v4 : (ip port : ℕ) → SocketAddr
  v6 : (ip port flowinfo scope_id : ℕ) → SocketAddr

abbrev addr_beq : SocketAddr → SocketAddr → Bool
addr_beq (v4 i p) (v4 j q) = i == j && p == q
addr_beq (v4 i p) (v6 j q g t) = false
addr_beq (v6 i p f s) (v4 j q) = false
addr_beq (v6 i p f s) (v6 j q g t) = i == j && p == q && f == g && s == t

pub addr_eq_iff : (a b : SocketAddr) → (addr_beq a b ≡ true) ↔ (a ≡ b)
addr_eq_iff (v4 i p) (v4 j q) = ground arith
addr_eq_iff (v4 i p) (v6 j q g t) = ground arith
addr_eq_iff (v6 i p f s) (v4 j q) = ground arith
addr_eq_iff (v6 i p f s) (v6 j q g t) = ground arith

instance abbrev pub addr_eq : Eq SocketAddr
addr_eq = record { eq = addr_beq; eq_iff = addr_eq_iff }

-- `SocketAddr::set_port`, as `with_port` of node.rs uses it.
unfoldable pub with_port : SocketAddr → ℕ → SocketAddr
with_port (v4 ip _) port = v4 ip port
with_port (v6 ip _ flowinfo scope_id) port = v6 ip port flowinfo scope_id

-- `Ipv4Addr::is_loopback`, `is_link_local` and `is_private`.
abbrev is_loopback_v4 : ℕ → Bool
is_loopback_v4 ip = ip / 2 ^ 24 == 127

abbrev is_link_local_v4 : ℕ → Bool
is_link_local_v4 ip = ip / 2 ^ 16 == 169 * 256 + 254

abbrev is_private_v4 : ℕ → Bool
is_private_v4 ip =
    ip / 2 ^ 24 == 10 || ip / 2 ^ 20 == 172 * 16 + 1 || ip / 2 ^ 16 == 192 * 256 + 168

-- `Ipv6Addr::is_loopback`, and `is_unicast_link_local`: the ten bits of fe80::/10.
abbrev is_loopback_v6 : ℕ → Bool
is_loopback_v6 ip = ip == 1

abbrev is_unicast_link_local_v6 : ℕ → Bool
is_unicast_link_local_v6 ip = ip / 2 ^ 118 == 0x3fa

unfoldable pub same_subnet : ℕ → ℕ → ℕ → Bool
same_subnet ip network mask = not (mask == 0) && bit_and ip mask == bit_and network mask

-- Lower is better. `local` has the address and the mask of each of this machine's interfaces.
unfoldable pub score : List (ℕ × ℕ) → SocketAddr → ℕ
score local (v4 ip port) =
    if is_loopback_v4 ip
    then 6
    else if is_link_local_v4 ip
    then 4
    else if any (λ n. same_subnet ip n.0 n.1) local
    then 0
    else if is_private_v4 ip
    then 1
    else 2
score local (v6 ip port flowinfo scope_id) =
    if is_loopback_v6 ip
    then 6
    else if is_unicast_link_local_v6 ip
    then (if not (scope_id == 0) then 5 else 7)
    else 3

-- The loop of `rank_with`: an address that is not yet ranked is put at the end.
unfoldable pub collect :
    List (ℕ × ℕ) → List (ℕ × SocketAddr) → List SocketAddr → List (ℕ × SocketAddr)
collect local ranked [] = ranked
collect local ranked (a ∷ rest) =
    if any (λ (r : ℕ × SocketAddr). r.1 == a) ranked
    then collect local ranked rest
    else collect local (ranked ++ (score local a, a) ∷ []) rest

-- `slice::sort_by_key` with the first component as the key, which is stable: an element goes before
-- the first one with a key that is not smaller, the last element first.
unfoldable pub insert_by_key {ℓ} : {A : Type ℓ} → ℕ × A → List (ℕ × A) → List (ℕ × A)
insert_by_key x [] = x ∷ []
insert_by_key x (y ∷ ys) = if leb x.0 y.0 then x ∷ y ∷ ys else y ∷ insert_by_key x ys

unfoldable pub sort_by_key {ℓ} : {A : Type ℓ} → List (ℕ × A) → List (ℕ × A)
sort_by_key [] = []
sort_by_key (x ∷ xs) = insert_by_key x (sort_by_key xs)

unfoldable pub rank_with : List SocketAddr → List (ℕ × ℕ) → List SocketAddr
rank_with addresses local =
    map (λ (r : ℕ × SocketAddr). r.1) (sort_by_key (collect local [] addresses))
