-- ===== src/Common/Map.antt =====
-- `HashMap` as an association list: `get`, `contains_key`, `insert` and `remove`.
use mathlib.Core.Bool.{Bool, false, ◌||◌}
use mathlib.Core.List.{List, [], ◌∷◌}
use mathlib.Core.Option.{Option, none, some}
use mathlib.Core.Path.{◌≡◌, refl, ap}
use mathlib.Core.Logic.{inl, inr}
use native.Mathlib.Omega.{arith}
use cled.Common.Lists.{any}
use cled.Common.Tests.{Eq, ◌==◌, if◌then◌else◌, is_some, Bool-cases}

module _ {ℓ κ} {K : Type ℓ} {V : Type κ} ⦃e : Eq K⦄ where
  abbrev pub get : List (K × V) → K → Option V
  get [] k = none
  get ((j, v) ∷ m) k = if j == k then some v else get m k

  abbrev pub contains_key : List (K × V) → K → Bool
  contains_key m k = is_some (get m k)

  abbrev pub remove : List (K × V) → K → List (K × V)
  remove [] k = []
  remove ((j, v) ∷ m) k = if j == k then remove m k else (j, v) ∷ remove m k

  abbrev pub insert : List (K × V) → K → V → List (K × V)
  insert m k v = (k, v) ∷ remove m k

  pub get-remove :
      (m : List (K × V)) (k j : K) → get (remove m k) j ≡ (if k == j then none else get m j)
  get-remove [] k j = ground arith
  get-remove ((i, w) ∷ m) k j =
      ground (arith, e.eq_iff i k, e.eq_iff i j, e.eq_iff k j, get-remove m k j)

  pub get-insert :
      (m : List (K × V)) (k : K) (v : V) (j : K)
      → get (insert m k v) j ≡ (if k == j then some v else get m j)
  get-insert m k v j = ground (arith, get-remove m k j)

  pub get-insert_same : (m : List (K × V)) (k : K) (v : V) → get (insert m k v) k ≡ some v
  get-insert_same m k v = ground (arith, e.eq_iff k k)

  pub get-remove_apart :
      (m : List (K × V)) (k j : K) → (k == j) ≡ false → get (remove m k) j ≡ get m j
  get-remove_apart m k j h = rw (get-remove m k j, h) refl

  pub get-insert_apart :
      (m : List (K × V)) (k : K) (v : V) (j : K) → (k == j) ≡ false → get (insert m k v) j ≡ get m j
  get-insert_apart m k v j h = rw h (get-remove_apart m k j h)

  pub remove_twice : (m : List (K × V)) (k : K) → remove (remove m k) k ≡ remove m k
  remove_twice [] k = refl
  remove_twice ((j, v) ∷ m) k = elim (Bool-cases (j == k)) [
    | inl same ↦ rw same (remove_twice m k)
    | inr apart ↦ rw apart (rw apart (ap (λ r. (j, v) ∷ r) (remove_twice m k)))
  ]

  pub remove-insert : (m : List (K × V)) (k : K) (v : V) → remove (insert m k v) k ≡ remove m k
  remove-insert m k v = rw ((e.eq_iff k k).1 refl) (remove_twice m k)

  -- Taking out a key loses only entries with a key that passes a test if that key does.
  pub any-remove :
      (q : K → Bool) (m : List (K × V)) (k : K)
      → (q k || any (λ (f : K × V). q f.0) (remove m k)) ≡ (q k || any (λ (f : K × V). q f.0) m)
  any-remove q [] k = refl
  any-remove q ((j, v) ∷ m) k = elim (Bool-cases (j == k)) [
    | inl same ↦ rw same (ground (arith, ap q ((e.eq_iff j k).0 same), any-remove q m k))
    | inr apart ↦ rw apart (ground (arith, any-remove q m k))
  ]
