-- ===== src/Desktop/Answer.antt =====
-- `Result<T, String>` in apps/desktop/src-tauri, whose error is shown to the user, and the crate url.
use cled.Common.{Option}
use cled.Clipboard.Content.{Chars}

pub data Answer {ℓ} (A : Type ℓ) : Type ℓ where
  done : A → Answer A
  failed : Chars → Answer A

infixl 5 ◌>>=◌
abbrev pub ◌>>=◌ {ℓ κ} : {A : Type ℓ} {B : Type κ} → Answer A → (A → Answer B) → Answer B
done a >>= f = f a
failed e >>= f = failed e

-- The parts of a URL that the app reads or sets; `rest` stands for the others.
pub record Url : Type 0 where
  pub scheme : Chars
  pub host_str : Option Chars
  pub path : Chars
  pub query : Option Chars
  pub fragment : Option Chars
  pub rest : Chars

-- `Url::parse`, `set_scheme`, which refuses some changes, `set_path`, which encodes, and `into`.
pub record UrlCrate : Type 0 where
  pub parse : Chars → Option Url
  pub set_scheme : Url → Chars → Option Url
  pub set_path : Url → Chars → Url
  pub into : Url → Chars

-- What a success has; a failure may be any.
abbrev pub Ensures {ℓ κ} : {A : Type ℓ} → (A → Type κ) → Answer A → Type κ
Ensures P (done a) = P a
Ensures P (failed e) = Unit

pub >>=-Ensures {ℓ κ λ' μ} :
    {A : Type ℓ} {B : Type κ} (P : A → Type λ') (Q : B → Type μ) (r : Answer A) (f : A → Answer B)
    → Ensures P r
    → ((a : A) → P a → Ensures Q (f a))
    → Ensures Q (r >>= f)
>>=-Ensures P Q (done a) f h each = each a h
>>=-Ensures P Q (failed e) f h each = tt

pub Ensures-nothing {ℓ} : {A : Type ℓ} (r : Answer A) → Ensures (λ _. Unit {0}) r
Ensures-nothing (done a) = tt
Ensures-nothing (failed e) = tt

pub Ensures-weaker {ℓ κ μ} :
    {A : Type ℓ} (P : A → Type κ) (Q : A → Type μ) (r : Answer A)
    → Ensures P r
    → ((a : A) → P a → Q a)
    → Ensures Q r
Ensures-weaker P Q (done a) h each = each a h
Ensures-weaker P Q (failed e) h each = tt
