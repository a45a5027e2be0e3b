-- ===== src/Common/Tests.antt =====
-- Boolean tests, the conditional, and equality as an instance.
use Prim.Native.Nat.{ℕ, ◌≤◌, ◌<◌, compare, Ordering}
use mathlib.Core.Bool.{Bool, true, false, ◌&&◌, ◌||◌}
use mathlib.Core.Logic.{◌↔◌, ◌⊎◌, inl, inr}
use mathlib.Core.Option.{Option, none, some}
use mathlib.Core.List.{List, [], ◌∷◌}
use mathlib.Core.Path.{◌≡◌, refl, subst}
use native.Mathlib.Omega.{arith}

abbrev pub ltb : ℕ → ℕ → Bool
ltb a b = elim (compare a b) [ Ordering.lt ↦ true | _ ↦ false ]

abbrev pub leb : ℕ → ℕ → Bool
leb a b = elim (compare a b) [ Ordering.gt ↦ false | _ ↦ true ]

abbrev pub nat_beq : ℕ → ℕ → Bool
nat_beq a b = elim (compare a b) [ Ordering.eq ↦ true | _ ↦ false ]

infix 1 if◌then◌else◌
abbrev pub if◌then◌else◌ {ℓ} : {A : Type ℓ} → Bool → A → A → A
if true then x else y = x
if false then x else y = y

ltb→lt : (a b : ℕ) → ltb a b ≡ true → a < b
ltb→lt a b h = ground arith

pub ltb-false→le : (a b : ℕ) → ltb a b ≡ false → b ≤ a
ltb-false→le a b h = ground arith

pub leb→le : (a b : ℕ) → leb a b ≡ true → a ≤ b
leb→le a b h = ground arith

pub nat_eq_iff : (a b : ℕ) → (nat_beq a b ≡ true) ↔ (a ≡ b)
nat_eq_iff a b = ground arith

-- To split on a computed value and keep the equation.
pub Bool-cases : (b : Bool) → (b ≡ true) ⊎ (b ≡ false)
Bool-cases true = inl refl
Bool-cases false = inr refl

pub Option-cases {ℓ} : {A : Type ℓ} (o : Option A) → (o ≡ none) ⊎ ((a : A) × (o ≡ some a))
Option-cases none = inl refl
Option-cases (some a) = inr (a, refl)

abbrev pub is_some {ℓ} : {A : Type ℓ} → Option A → Bool
is_some none = false
is_some (some a) = true

-- `derive(PartialEq)` of the source's key types: a test, and what its answer means.
pub record Eq {ℓ} (T : Type ℓ) : Type ℓ where
  pub eq : T → T → Bool
  pub eq_iff : (x y : T) → (eq x y ≡ true) ↔ (x ≡ y)

instance abbrev pub nat_eq : Eq ℕ
nat_eq = record { eq_iff = nat_eq_iff; eq = nat_beq }

module _ {ℓ} {T : Type ℓ} ⦃e : Eq T⦄ where
  infix 50 ◌==◌
  abbrev pub ◌==◌ : T → T → Bool
  ◌==◌ = e.eq

pub &&-eq-true : (a b : Bool) → (a && b) ≡ true → (a ≡ true) × (b ≡ true)
&&-eq-true a b h = ground arith

pub ||-eq-false : (a b : Bool) → (a || b) ≡ false → (a ≡ false) × (b ≡ false)
||-eq-false a b h = ground arith

abbrev list_beq {ℓ} : {A : Type ℓ} ⦃e : Eq A⦄ → List A → List A → Bool
list_beq [] [] = true
list_beq [] (y ∷ ys) = false
list_beq (x ∷ xs) [] = false
list_beq (x ∷ xs) (y ∷ ys) = x == y && list_beq xs ys

list_beq_sound {ℓ} : {A : Type ℓ} ⦃e : Eq A⦄ (xs ys : List A) → list_beq xs ys ≡ true → xs ≡ ys
list_beq_sound [] [] h = refl
list_beq_sound [] (y ∷ ys) h = cc
list_beq_sound (x ∷ xs) [] h = cc
list_beq_sound ⦃e⦄ (x ∷ xs) (y ∷ ys) h = ground (arith, e.eq_iff x y, list_beq_sound xs ys)

list_beq_refl {ℓ} : {A : Type ℓ} ⦃e : Eq A⦄ (xs : List A) → list_beq xs xs ≡ true
list_beq_refl [] = refl
list_beq_refl ⦃e⦄ (x ∷ xs) = ground (arith, e.eq_iff x x, list_beq_refl xs)

pub list_eq_iff {ℓ} : {A : Type ℓ} ⦃e : Eq A⦄ (xs ys : List A) → (list_beq xs ys ≡ true) ↔ (xs ≡ ys)
list_eq_iff xs ys =
    (list_beq_sound xs ys, λ p. subst (λ z. list_beq xs z ≡ true) p (list_beq_refl xs))

instance abbrev pub list_eq {ℓ} : {A : Type ℓ} ⦃e : Eq A⦄ → Eq (List A)
list_eq = record { eq = list_beq; eq_iff = list_eq_iff }

abbrev option_beq {ℓ} : {A : Type ℓ} ⦃e : Eq A⦄ → Option A → Option A → Bool
option_beq none none = true
option_beq none (some y) = false
option_beq (some x) none = false
option_beq (some x) (some y) = x == y

pub option_eq_iff {ℓ} : {A : Type ℓ} ⦃e : Eq A⦄ (x y : Option A) → (option_beq x y ≡ true) ↔ (x ≡ y)
option_eq_iff none none = ground arith
option_eq_iff none (some y) = ground arith
option_eq_iff (some x) none = ground arith
option_eq_iff ⦃e⦄ (some x) (some y) = ground (arith, e.eq_iff x y)

instance abbrev pub option_eq {ℓ} : {A : Type ℓ} ⦃e : Eq A⦄ → Eq (Option A)
option_eq = record { eq = option_beq; eq_iff = option_eq_iff }
