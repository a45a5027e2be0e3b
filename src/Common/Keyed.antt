-- ===== src/Common/Keyed.antt =====
-- Lists whose entries carry a number that identifies them.
use mathlib.Core.Bool.{Bool, not, false, ◌&&◌}
use mathlib.Core.List.{List, [], ◌∷◌, ◌++◌}
use mathlib.Core.Logic.{inl, inr}
use mathlib.Core.Option.{Option, none, some}
use mathlib.Core.Path.{◌≡◌, refl, ◌∙◌, ap}
use Prim.Native.Nat.{ℕ}
use native.Mathlib.Omega.{arith}
use cled.Common.Lists.{any, find, retain, update_first, remove_first}
use cled.Common.Tests.{◌==◌, nat_eq, if◌then◌else◌, Bool-cases, is_some}

abbrev pub or_else {ℓ} : {A : Type ℓ} → Option A → Option A → Option A
or_else none b = b
or_else (some a) b = some a

abbrev map_option {ℓ κ} : {A : Type ℓ} {B : Type κ} → (A → B) → Option A → Option B
map_option f none = none
map_option f (some a) = some (f a)

module _ {ℓ} {A : Type ℓ} (key : A → ℕ) where
  abbrev pub lookup : List A → ℕ → Option A
  lookup xs k = find (λ x. key x == k) xs

  abbrev pub Unique : List A → Type ℓ
  Unique [] = Unit
  Unique (x ∷ xs) = (lookup xs (key x) ≡ none) × Unique xs

  pub lookup-key : (xs : List A) (k : ℕ) (x : A) → lookup xs k ≡ some x → key x ≡ k
  lookup-key [] k x h = ground arith
  lookup-key (y ∷ ys) k x h = ground (arith, lookup-key ys k x)

  pub lookup-retain :
      (xs : List A) (k j : ℕ)
      → lookup (retain (λ x. not (key x == k)) xs) j ≡ (if k == j then none else lookup xs j)
  lookup-retain [] k j = ground arith
  lookup-retain (x ∷ xs) k j = ground (arith, lookup-retain xs k j)

  pub lookup-append :
      (xs ys : List A) (j : ℕ) → lookup (xs ++ ys) j ≡ or_else (lookup xs j) (lookup ys j)
  lookup-append [] ys j = refl
  lookup-append (x ∷ xs) ys j = ground (arith, lookup-append xs ys j)

  pub lookup-update_first :
      (f : A → A) (same : (x : A) → key (f x) ≡ key x) (xs : List A) (k j : ℕ)
      → lookup (update_first (λ x. key x == k) f xs) j
        ≡ (if k == j then map_option f (lookup xs j) else lookup xs j)
  lookup-update_first f same [] k j = ground arith
  lookup-update_first f same (x ∷ xs) k j =
      ground (arith, same x, lookup-update_first f same xs k j)

  pub lookup_cong : (xs : List A) (i j : ℕ) → i ≡ j → lookup xs i ≡ lookup xs j
  lookup_cong xs i j e = ap (lookup xs) e

  pub lookup-remove_first :
      (xs : List A) (k j : ℕ)
      → Unique xs
      → lookup (remove_first (λ x. key x == k) xs) j ≡ (if k == j then none else lookup xs j)
  lookup-remove_first [] k j u = ground arith
  lookup-remove_first (x ∷ xs) k j u = elim (Bool-cases (key x == k)) [
    | inl hit ↦ rw hit (ground (arith, u.0, hit, lookup_cong xs (key x) j))
    | inr miss ↦ rw miss (ground (arith, lookup-remove_first xs k j u.1))
  ]

  pub Unique-append :
      (xs : List A) (x : A) → Unique xs → lookup xs (key x) ≡ none → Unique (xs ++ x ∷ [])
  Unique-append [] x u h = (refl, tt)
  Unique-append (y ∷ ys) x u h = (
    lookup-append ys (x ∷ []) (key y) ∙ ground (arith, u.0),
    Unique-append ys x u.1 (ground arith),
  )

  lookup-retain-none :
      (p : A → Bool) (xs : List A) (k : ℕ) → lookup xs k ≡ none → lookup (retain p xs) k ≡ none
  lookup-retain-none p [] k h = refl
  lookup-retain-none p (x ∷ xs) k h = ground (arith, lookup-retain-none p xs k)

  pub Unique-retain : (p : A → Bool) (xs : List A) → Unique xs → Unique (retain p xs)
  Unique-retain p [] u = tt
  Unique-retain p (x ∷ xs) u = elim (Bool-cases (p x)) [
    | inl keep ↦ rw keep (lookup-retain-none p xs (key x) u.0, Unique-retain p xs u.1)
    | inr drop ↦ rw drop (Unique-retain p xs u.1)
  ]

  pub is_some-update_first :
      (p : A → Bool) (f : A → A) (same : (x : A) → key (f x) ≡ key x) (xs : List A) (k : ℕ)
      → is_some (lookup (update_first p f xs) k) ≡ is_some (lookup xs k)
  is_some-update_first p f same [] k = refl
  is_some-update_first p f same (x ∷ xs) k =
      ground (arith, same x, is_some-update_first p f same xs k)

  none_of-is_some : (o : Option A) → is_some o ≡ false → o ≡ none
  none_of-is_some o h = ground arith

  pub Unique-update_first :
      (p : A → Bool) (f : A → A) (same : (x : A) → key (f x) ≡ key x) (xs : List A)
      → Unique xs
      → Unique (update_first p f xs)
  Unique-update_first p f same [] u = tt
  Unique-update_first p f same (x ∷ xs) u = elim (Bool-cases (p x)) [
    | inl hit ↦ rw hit (ap (lookup xs) (same x) ∙ u.0, u.1)
    | inr miss ↦ rw miss (
      none_of-is_some _ (is_some-update_first p f same xs (key x) ∙ ap is_some u.0),
      Unique-update_first p f same xs u.1,
    )
  ]

  pub Unique-remove_first :
      (xs : List A) (k : ℕ) → Unique xs → Unique (remove_first (λ x. key x == k) xs)
  Unique-remove_first [] k u = tt
  Unique-remove_first (x ∷ xs) k u = elim (Bool-cases (key x == k)) [
    | inl hit ↦ rw hit (u.1)
    | inr miss ↦
        rw miss
          (lookup-remove_first xs k (key x) u.1 ∙ ground (arith, u.0), Unique-remove_first xs k u.1)
  ]

  -- A test of the entries of one key is a test of the entry.
  pub any-lookup :
      (q : A → Bool) (xs : List A) (k : ℕ)
      → Unique xs
      → any (λ x. key x == k && q x) xs ≡ elim (lookup xs k) [ none ↦ false | some x ↦ q x ]
  any-lookup q [] k u = refl
  any-lookup q (x ∷ xs) k u = elim (Bool-cases (key x == k)) [
    | inl hit ↦ rw hit (ground (arith, u.0, hit, any-lookup q xs k u.1, lookup_cong xs (key x) k))
    | inr miss ↦ rw miss (any-lookup q xs k u.1)
  ]
