-- ===== src/Lan/Error.antt =====
-- crates/cled-lan/src/error.rs. The texts that errors carry for the log are left out.
use cled.Common.{inl, inr, refl, ℕ, ◌≡◌, ◌⊎◌}

pub data LanError : Type 0 where
  io noise malformed : LanError
  too_large incompatible_version : ℕ → LanError
  wrong_code not_pairing code_expired unknown_peer timeout stopped other : LanError

pub data Result {ℓ} (A : Type ℓ) : Type ℓ where
  ok : A → Result A
  err : LanError → Result A

infixl 5 ◌>>=◌
abbrev pub ◌>>=◌ {ℓ κ} : {A : Type ℓ} {B : Type κ} → Result A → (A → Result B) → Result B
ok a >>= f = f a
err e >>= f = err e

-- What a successful result has; an error may be any.
abbrev pub Ensures {ℓ κ} : {A : Type ℓ} → (A → Type κ) → Result A → Type κ
Ensures P (ok a) = P a
Ensures P (err e) = Unit

pub >>=-Ensures {ℓ κ λ' μ} :
    {A : Type ℓ} {B : Type κ} (P : A → Type λ') (Q : B → Type μ) (r : Result A) (f : A → Result B)
    → Ensures P r
    → ((a : A) → P a → Ensures Q (f a))
    → Ensures Q (r >>= f)
>>=-Ensures P Q (ok a) f h each = each a h
>>=-Ensures P Q (err e) f h each = tt

-- Two ways to go on are the same if they are for each result there can be.
pub >>=_same {ℓ κ μ} :
    {A : Type ℓ} {B : Type κ} (P : A → Type μ) (r : Result A) (f g : A → Result B)
    → Ensures P r
    → ((a : A) → P a → f a ≡ g a)
    → (r >>= f) ≡ (r >>= g)
>>=_same P (ok a) f g h each = each a h
>>=_same P (err e) f g h each = refl

pub Ensures-weaker {ℓ κ μ} :
    {A : Type ℓ} (P : A → Type κ) (Q : A → Type μ) (r : Result A)
    → Ensures P r
    → ((a : A) → P a → Q a)
    → Ensures Q r
Ensures-weaker P Q (ok a) h each = each a h
Ensures-weaker P Q (err e) h each = tt

pub Ensures-nothing {ℓ} : {A : Type ℓ} (r : Result A) → Ensures (λ _. Unit {0}) r
Ensures-nothing (ok a) = tt
Ensures-nothing (err e) = tt

pub Result-cases {ℓ} :
    {A : Type ℓ} (r : Result A) → ((a : A) × (r ≡ ok a)) ⊎ ((e : LanError) × (r ≡ err e))
Result-cases (ok a) = inl (a, refl)
Result-cases (err e) = inr (e, refl)

pub ok_injective {ℓ} : {A : Type ℓ} {a b : A} → Path (Result A) (ok a) (ok b) → a ≡ b
ok_injective h = cc
