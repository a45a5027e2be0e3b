-- ===== src/Common/Lists.antt =====
-- Lists measured by native numbers, their Boolean searches and filters.
use Prim.Native.Nat.{ℕ, zero, suc, ◌+◌, ◌-◌, ◌≤◌, min}
use mathlib.Core.Bool.{Bool, true, false, ◌||◌, ◌&&◌}
use mathlib.Core.List.{List, [], ◌∷◌, ◌++◌}
use mathlib.Core.Option.{Option, none, some}
use mathlib.Core.Path.{◌≡◌, refl, ap, subst}
use native.Mathlib.Omega.{arith}
use mathlib.Core.Logic.{inl, inr}
use cled.Common.Tests.{Eq, ◌==◌, if◌then◌else◌, Bool-cases}

module _ {ℓ} {A : Type ℓ} where
  abbrev pub length : List A → ℕ
  length [] = 0
  length (x ∷ xs) = suc (length xs)

  abbrev pub take : ℕ → List A → List A
  take zero xs = []
  take (suc n) [] = []
  take (suc n) (x ∷ xs) = x ∷ take n xs

  abbrev pub drop : ℕ → List A → List A
  drop zero xs = xs
  drop (suc n) [] = []
  drop (suc n) (x ∷ xs) = drop n xs

  -- `Vec::retain` and `Iterator::filter`.
  abbrev pub retain : (A → Bool) → List A → List A
  retain p [] = []
  retain p (x ∷ xs) = if p x then x ∷ retain p xs else retain p xs

  -- `Iterator::find`.
  abbrev pub find : (A → Bool) → List A → Option A
  find p [] = none
  find p (x ∷ xs) = if p x then some x else find p xs

  abbrev pub any : (A → Bool) → List A → Bool
  any p [] = false
  any p (x ∷ xs) = p x || any p xs

  abbrev pub all : (A → Bool) → List A → Bool
  all p [] = true
  all p (x ∷ xs) = p x && all p xs

  pub length-append : (xs ys : List A) → length (xs ++ ys) ≡ length xs + length ys
  length-append [] ys = omega arith
  length-append (x ∷ xs) ys = omega (arith, length-append xs ys)

  pub length-take : (n : ℕ) (xs : List A) → length (take n xs) ≡ min n (length xs)
  length-take zero xs = omega arith
  length-take (suc n) [] = omega arith
  length-take (suc n) (x ∷ xs) = omega (arith, length-take n xs)

  pub length-drop : (n : ℕ) (xs : List A) → length (drop n xs) ≡ length xs - n
  length-drop zero xs = omega arith
  length-drop (suc n) [] = omega arith
  length-drop (suc n) (x ∷ xs) = omega (arith, length-drop n xs)

  pub take-append-drop : (n : ℕ) (xs : List A) → take n xs ++ drop n xs ≡ xs
  take-append-drop zero xs = refl
  take-append-drop (suc n) [] = refl
  take-append-drop (suc n) (x ∷ xs) = ap (◌∷◌ x) (take-append-drop n xs)

  take-append_length : (xs ys : List A) → take (length xs) (xs ++ ys) ≡ xs
  take-append_length [] ys = refl
  take-append_length (x ∷ xs) ys = ap (◌∷◌ x) (take-append_length xs ys)

  drop-append_length : (xs ys : List A) → drop (length xs) (xs ++ ys) ≡ ys
  drop-append_length [] ys = refl
  drop-append_length (x ∷ xs) ys = drop-append_length xs ys

  pub length-retain-le : (p : A → Bool) (xs : List A) → length (retain p xs) ≤ length xs
  length-retain-le p [] = omega arith
  length-retain-le p (x ∷ xs) = ground (arith, length-retain-le p xs)

module _ {ℓ} {A : Type ℓ} ⦃e : Eq A⦄ where
  abbrev pub contains : List A → A → Bool
  contains [] a = false
  contains (x ∷ xs) a = x == a || contains xs a

  pub contains-append :
      (xs ys : List A) (a : A) → contains (xs ++ ys) a ≡ (contains xs a || contains ys a)
  contains-append [] ys a = refl
  contains-append (x ∷ xs) ys a = ground (arith, contains-append xs ys a)

  pub beq_refl : (a : A) → (a == a) ≡ true
  beq_refl a = (e.eq_iff a a).1 refl

  pub contains-snoc :
      (xs : List A) (b a : A) → contains (xs ++ b ∷ []) a ≡ (contains xs a || b == a)
  contains-snoc xs b a = ground (arith, contains-append xs (b ∷ []) a)

  pub contains_absorbs :
      (xs : List A) (b a : A) (c : Bool)
      → contains xs b ≡ true
      → (contains xs a || c) ≡ (contains xs a || (b == a || c))
  contains_absorbs xs b a c h = elim (Bool-cases (b == a)) [
    | inr apart ↦ rw apart refl
    | inl same ↦
        let there : contains xs a ≡ true =
          subst (λ x. contains xs x ≡ true) ((e.eq_iff b a).0 same) h in
        rw there refl
  ]

  pub all-contains :
      (p : A → Bool) (xs : List A) (a : A) → all p xs ≡ true → contains xs a ≡ true → p a ≡ true
  all-contains p [] a h c = absurd (ground arith)
  all-contains p (x ∷ xs) a h c = ground (arith, e.eq_iff x a, all-contains p xs a)

  pub eq_comm : (a b : A) → (a == b) ≡ (b == a)
  eq_comm a b = ground (arith, e.eq_iff a b, e.eq_iff b a)

  -- No value twice.
  abbrev pub Distinct : List A → Type 0
  Distinct [] = Unit {0}
  Distinct (x ∷ xs) = (contains xs x ≡ false) × Distinct xs

module _ {ℓ} {A : Type ℓ} where
  -- `iter_mut().find(p)` with a change of what it finds.
  abbrev pub update_first : (A → Bool) → (A → A) → List A → List A
  update_first p f [] = []
  update_first p f (x ∷ xs) = if p x then f x ∷ xs else x ∷ update_first p f xs

  -- `position(p)` and `remove` of the index.
  abbrev pub remove_first : (A → Bool) → List A → List A
  remove_first p [] = []
  remove_first p (x ∷ xs) = if p x then xs else x ∷ remove_first p xs

  pub all-append : (p : A → Bool) (xs ys : List A) → all p (xs ++ ys) ≡ (all p xs && all p ys)
  all-append p [] ys = refl
  all-append p (x ∷ xs) ys = ground (arith, all-append p xs ys)

  pub retain-append :
      (p : A → Bool) (xs ys : List A) → retain p (xs ++ ys) ≡ retain p xs ++ retain p ys
  retain-append p [] ys = refl
  retain-append p (x ∷ xs) ys = elim (Bool-cases (p x)) [
    | inl kept ↦ rw (kept, retain-append p xs ys) refl
    | inr dropped ↦ rw (dropped, retain-append p xs ys) refl
  ]

  pub take-append_at : (n : ℕ) (xs ys : List A) → length xs ≡ n → take n (xs ++ ys) ≡ xs
  take-append_at n xs ys h = subst (λ n. take n (xs ++ ys) ≡ xs) h (take-append_length xs ys)

  pub drop-append_at : (n : ℕ) (xs ys : List A) → length xs ≡ n → drop n (xs ++ ys) ≡ ys
  drop-append_at n xs ys h = subst (λ n. drop n (xs ++ ys) ≡ ys) h (drop-append_length xs ys)
