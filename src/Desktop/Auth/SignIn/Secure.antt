-- ===== src/Desktop/Auth/SignIn/Secure.antt =====
-- What a sign-in of apps/desktop/src-tauri/src/auth.rs is kept for.
use cled.Common.{
  Bool, Bool-cases, Option, false, inl, inr, list_eq, nat_eq, none, refl, some, subst, sym, true,
  ◌≡◌,
}
use cled.Common.Utf8.{codes}
use cled.Clipboard.Content.{Chars}
use cled.Desktop.Answer.{
  done, failed, ◌>>=◌, Answer, Ensures, >>=-Ensures, Ensures-nothing, Ensures-weaker,
}
use cled.Desktop.Relay.{trim_slashes}
use cled.Desktop.Auth.{StoredSession, TokenResponse, Response, Account}
use cled.Desktop.Auth.Flow.{
  RelayAuthConfig, ServerMetadata, IdClaims, starts_with, check_issuer, check_metadata,
  bind_loopback, loopback_ports, read_tokens, new_session, account_from, exchanged, session_of,
}
use cled.Desktop.Auth.SignIn.{
  Browser, came_back, timed_out, cancelled, await_code, or_in_use, Answers, sign_in_flow,
}

-- An issuer with an encrypted address.
abbrev pub IsSecure : Chars → Type 0
IsSecure issuer = starts_with issuer (codes "https://") ≡ true

check_issuer-Ensures : (config : RelayAuthConfig) → Ensures IsSecure (check_issuer config)
unfolding check_issuer
check_issuer-Ensures config =
    elim (Bool-cases (starts_with (trim_slashes config.issuer) (codes "https://"))) [
      | inl secure ↦ rw (check_issuer, secure) secure
      | inr plain ↦ rw (check_issuer, plain) tt
    ]

-- What is saved is for an issuer.
IsFor : Chars → TokenResponse × StoredSession → Type 0
IsFor issuer kept = kept.1.issuer ≡ issuer

session_of-Ensures :
    (issuer : Chars) (config : RelayAuthConfig) (metadata : ServerMetadata)
    (refresh_token : Option Chars) (account : Option Account)
    → Ensures
        (λ (s : StoredSession). s.issuer ≡ issuer)
        (session_of issuer config metadata refresh_token account)
unfolding session_of
session_of-Ensures issuer config metadata none account = tt
session_of-Ensures issuer config metadata (some refresh_token) none = tt
session_of-Ensures issuer config metadata (some refresh_token) (some account) = refl

exchanged-Ensures :
    (read_claims : Chars → Option IdClaims) (issuer : Chars) (config : RelayAuthConfig)
    (metadata : ServerMetadata) (response : Response)
    → Ensures (IsFor issuer) (exchanged read_claims issuer config metadata response)
unfolding exchanged new_session IsFor
exchanged-Ensures read_claims issuer config metadata response =
    >>=-Ensures (λ _. Unit {0}) (IsFor issuer) (read_tokens read_claims response) _
      (Ensures-nothing (read_tokens read_claims response))
      (λ tokens _.
        >>=-Ensures _ (IsFor issuer)
          (session_of issuer config metadata tokens.refresh_token (account_from read_claims tokens))
          _
          (session_of-Ensures issuer config metadata tokens.refresh_token
            (account_from read_claims tokens))
          (λ stored e. e))

-- The browser came back with a code.
abbrev is_back : Browser → Bool
is_back (came_back (done code)) = true
is_back (came_back (failed error)) = false
is_back timed_out = false
is_back cancelled = false

abbrev pub Kept : Browser → TokenResponse × StoredSession → Type 0
Kept browser kept = IsSecure kept.1.issuer × (is_back browser ≡ true)

await_code-Ensures :
    (browser : Browser) → Ensures (λ _. is_back browser ≡ true) (await_code browser)
unfolding await_code
await_code-Ensures (came_back (done code)) = refl
await_code-Ensures (came_back (failed error)) = tt
await_code-Ensures timed_out = tt
await_code-Ensures cancelled = tt

exchanged-Kept :
    (read_claims : Chars → Option IdClaims) (issuer : Chars) (config : RelayAuthConfig)
    (metadata : ServerMetadata) (response : Response) (browser : Browser)
    → IsSecure issuer
    → is_back browser ≡ true
    → Ensures (Kept browser) (exchanged read_claims issuer config metadata response)
unfolding IsFor
exchanged-Kept read_claims issuer config metadata response browser h back =
    Ensures-weaker (IsFor issuer) (Kept browser)
      (exchanged read_claims issuer config metadata response)
      (exchanged-Ensures read_claims issuer config metadata response)
      (λ kept e. (subst IsSecure (sym e) h, back))

-- A step of the flow of which nothing is needed.
each :
    {A : Type 0} (Q : TokenResponse × StoredSession → Type 0) (r : Answer A)
    (f : A → Answer (TokenResponse × StoredSession))
    → ((x : A) → Ensures Q (f x))
    → Ensures Q (r >>= f)
each Q r f go = >>=-Ensures (λ _. Unit {0}) Q r f (Ensures-nothing r) (λ x _. go x)

-- Whatever the relay and the account service answer, a sign-in is kept only if the issuer's address starts
-- with https, and only if the browser came back with a code.
pub sign_in_flow-IsSecure :
    (read_claims : Chars → Option IdClaims) (a : Answers)
    → Ensures (Kept a.browser) (sign_in_flow read_claims a)
unfolding sign_in_flow
sign_in_flow-IsSecure read_claims a =
    let Q : TokenResponse × StoredSession → Type 0 = Kept a.browser in
    each Q a.config _ λ config.
      >>=-Ensures IsSecure Q (check_issuer config) _ (check_issuer-Ensures config) λ issuer secure.
        each Q a.metadata _ λ named. each Q (check_metadata issuer named) _ λ metadata.
          each Q (or_in_use (bind_loopback a.is_free loopback_ports)) _ λ port.
            each Q a.browser_opened _ λ opened.
              >>=-Ensures (λ _. is_back a.browser ≡ true) Q (await_code a.browser) _
                (await_code-Ensures a.browser)
                λ code back.
                  exchanged-Kept read_claims issuer config metadata a.response a.browser secure back
