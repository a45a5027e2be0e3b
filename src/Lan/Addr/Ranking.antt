-- ===== src/Lan/Addr/Ranking.antt =====
-- The order in which crates/cled-lan/src/addr.rs has addresses tried.
use cled.Common.{
  Bool, Bool-cases, Distinct, List, [], any, ap, arith, contains, contains-snoc, contains_absorbs,
  eq_comm, false, inl, inr, leb, leb→le, map, nat_eq, refl, subst, sym, ||-eq-false, ℕ, ◌++◌, ◌==◌,
  ◌||◌, ◌∙◌, ◌∷◌, ◌≡◌, ◌≤◌,
}
use cled.Lan.Addr.{SocketAddr, addr_eq, score, collect, insert_by_key, sort_by_key, rank_with}

module _ {ℓ} {A : Type ℓ} where
  abbrev AtLeast : ℕ → List (ℕ × A) → Type 0
  AtLeast k [] = Unit {0}
  AtLeast k (x ∷ xs) = (k ≤ x.0) × AtLeast k xs

  abbrev AreAscending : List (ℕ × A) → Type 0
  AreAscending [] = Unit {0}
  AreAscending (x ∷ xs) = AtLeast x.0 xs × AreAscending xs

  AtLeast-weaker : (j k : ℕ) (xs : List (ℕ × A)) → j ≤ k → AtLeast k xs → AtLeast j xs
  AtLeast-weaker j k [] le h = tt
  AtLeast-weaker j k (x ∷ xs) le (first, h) = (omega arith, AtLeast-weaker j k xs le h)

  insert_by_key-AtLeast :
      (k : ℕ) (x : ℕ × A) (ys : List (ℕ × A))
      → k ≤ x.0
      → AtLeast k ys
      → AtLeast k (insert_by_key x ys)
  unfolding insert_by_key
  insert_by_key-AtLeast k x [] le h = (le, tt)
  insert_by_key-AtLeast k x (y ∷ ys) le (first, h) = elim (Bool-cases (leb x.0 y.0)) [
    | inl before ↦ rw before (le, (first, h))
    | inr after ↦ rw after (first, insert_by_key-AtLeast k x ys le h)
  ]

  insert_by_key-AreAscending :
      (x : ℕ × A) (ys : List (ℕ × A)) → AreAscending ys → AreAscending (insert_by_key x ys)
  unfolding insert_by_key
  insert_by_key-AreAscending x [] h = (tt, tt)
  insert_by_key-AreAscending x (y ∷ ys) (low, h) = elim (Bool-cases (leb x.0 y.0)) [
    | inl before ↦
        let le = leb→le x.0 y.0 before in
        rw before ((le, AtLeast-weaker x.0 y.0 ys le low), (low, h))
    | inr after ↦
        let le : y.0 ≤ x.0 = ground (arith, after) in
        rw after (insert_by_key-AtLeast y.0 x ys le low, insert_by_key-AreAscending x ys h)
  ]

  sort_by_key-AreAscending : (xs : List (ℕ × A)) → AreAscending (sort_by_key xs)
  unfolding sort_by_key
  sort_by_key-AreAscending [] = tt
  sort_by_key-AreAscending (x ∷ xs) =
      insert_by_key-AreAscending x (sort_by_key xs) (sort_by_key-AreAscending xs)

abbrev addresses_in : List (ℕ × SocketAddr) → List SocketAddr
addresses_in r = map (λ (x : ℕ × SocketAddr). x.1) r

contains-insert_by_key :
    (x : ℕ × SocketAddr) (ys : List (ℕ × SocketAddr)) (a : SocketAddr)
    → contains (addresses_in (insert_by_key x ys)) a ≡ (x.1 == a || contains (addresses_in ys) a)
unfolding insert_by_key
contains-insert_by_key x [] a = refl
contains-insert_by_key x (y ∷ ys) a = elim (Bool-cases (leb x.0 y.0)) [
  | inl before ↦ rw before refl
  | inr after ↦ rw (after, contains-insert_by_key x ys a) (ground arith)
]

insert_by_key-Distinct :
    (x : ℕ × SocketAddr) (ys : List (ℕ × SocketAddr))
    → contains (addresses_in ys) x.1 ≡ false
    → Distinct (addresses_in ys)
    → Distinct (addresses_in (insert_by_key x ys))
unfolding insert_by_key
insert_by_key-Distinct x [] new h = (new, tt)
insert_by_key-Distinct x (y ∷ ys) new (once, h) = elim (Bool-cases (leb x.0 y.0)) [
  | inl before ↦ rw before (new, (once, h))
  | inr after ↦
      let (apart, new') = ||-eq-false (y.1 == x.1) _ new in
      rw after (
        contains-insert_by_key x ys y.1 ∙ rw (eq_comm x.1 y.1, apart) once,
        insert_by_key-Distinct x ys new' h,
      )
]

contains-sort_by_key :
    (xs : List (ℕ × SocketAddr)) (a : SocketAddr)
    → contains (addresses_in (sort_by_key xs)) a ≡ contains (addresses_in xs) a
unfolding sort_by_key
contains-sort_by_key [] a = refl
contains-sort_by_key (x ∷ xs) a =
    contains-insert_by_key x (sort_by_key xs) a
    ∙ ap (λ b. x.1 == a || b) (contains-sort_by_key xs a)

sort_by_key-Distinct :
    (xs : List (ℕ × SocketAddr))
    → Distinct (addresses_in xs)
    → Distinct (addresses_in (sort_by_key xs))
unfolding sort_by_key
sort_by_key-Distinct [] h = tt
sort_by_key-Distinct (x ∷ xs) (new, h) =
    insert_by_key-Distinct x (sort_by_key xs) (contains-sort_by_key xs x.1 ∙ new)
      (sort_by_key-Distinct xs h)

any-contains :
    (r : List (ℕ × SocketAddr)) (a : SocketAddr)
    → any (λ (x : ℕ × SocketAddr). x.1 == a) r ≡ contains (addresses_in r) a
any-contains [] a = refl
any-contains (x ∷ r) a = ap (λ b. x.1 == a || b) (any-contains r a)

addresses_in-snoc :
    (r : List (ℕ × SocketAddr)) (x : ℕ × SocketAddr)
    → addresses_in (r ++ x ∷ []) ≡ addresses_in r ++ x.1 ∷ []
addresses_in-snoc [] x = refl
addresses_in-snoc (y ∷ r) x = ap (◌∷◌ (y.1)) (addresses_in-snoc r x)

Distinct-snoc :
    (xs : List SocketAddr) (a : SocketAddr)
    → contains xs a ≡ false
    → Distinct xs
    → Distinct (xs ++ a ∷ [])
Distinct-snoc [] a new h = (refl, tt)
Distinct-snoc (b ∷ bs) a new (once, h) =
    let (apart, rest) = ||-eq-false (b == a) _ new in
    (contains-snoc bs a b ∙ rw (once, eq_comm a b) apart, Distinct-snoc bs a rest h)

or_assoc : (a b c : Bool) → ((a || b) || c) ≡ (a || (b || c))
or_assoc a b c = ground arith

-- What `collect` leaves: each address once, those that were ranked and those that came.
collect_lem :
    (local : List (ℕ × ℕ)) (rest : List SocketAddr) (r : List (ℕ × SocketAddr)) (a : SocketAddr)
    → Distinct (addresses_in r)
    → Distinct (addresses_in (collect local r rest))
      × (contains (addresses_in (collect local r rest)) a
          ≡ (contains (addresses_in r) a || contains rest a))
unfolding collect
collect_lem local [] r a h = (h, ground arith)
collect_lem local (b ∷ rest) r a h = elim (Bool-cases (any (λ (x : ℕ × SocketAddr). x.1 == b) r)) [
  | inl known ↦
      let (once, same) = collect_lem local rest r a h in
      rw known (
        once,
        same
            ∙ contains_absorbs (addresses_in r) b a (contains rest a)
                (sym (any-contains r b) ∙ known),
      )
  | inr new ↦
      let (once, same) = collect_lem local rest (r ++ (score local b, b) ∷ []) a (
        subst Distinct (sym (addresses_in-snoc r (score local b, b)))
          (Distinct-snoc (addresses_in r) b (sym (any-contains r b) ∙ new) h)) in
      rw new (
        once,
        same
            ∙ rw (addresses_in-snoc r (score local b, b), contains-snoc (addresses_in r) b a)
                (or_assoc (contains (addresses_in r) a) (b == a) (contains rest a)),
      )
]

-- Ranking loses no address and repeats none, and what it sorts comes out with scores that ascend.
rank_with_lem :
    (addresses : List SocketAddr) (local : List (ℕ × ℕ)) (a : SocketAddr)
    → Distinct (rank_with addresses local)
      × (contains (rank_with addresses local) a ≡ contains addresses a)
      × AreAscending (sort_by_key (collect local [] addresses))
unfolding rank_with
rank_with_lem addresses local a =
    let (once, same) = collect_lem local addresses [] a tt in
    (
      sort_by_key-Distinct (collect local [] addresses) once,
      contains-sort_by_key (collect local [] addresses) a ∙ same,
      sort_by_key-AreAscending (collect local [] addresses),
    )
