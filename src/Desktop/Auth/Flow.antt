-- ===== src/Desktop/Auth/Flow.antt =====
-- `sign_in_flow` of apps/desktop/src-tauri/src/auth.rs, up to the browser and from there on. The claims
-- that a token carries are read by a parameter, which stands for base64 and serde_json.
use cled.Common.{
  Bool, List, Option, [], false, if◌then◌else◌, list_eq, nat_eq, none, not, some, true, ℕ, ◌&&◌,
  ◌++◌, ◌==◌, ◌∷◌,
}
use cled.Common.Utf8.{codes}
use cled.Clipboard.Content.{Chars}
use cled.Desktop.Answer.{Answer, done, failed, ◌>>=◌}
use cled.Desktop.Relay.{trim_slashes}
use cled.Desktop.Auth.{
  Account, AuthState, StoredSession, TokenResponse, Response, no_answer, answer, is_success, expiry,
  store_session,
}

pub record RelayAuthConfig : Type 0 where
  pub issuer : Chars
  pub client_id : Chars
  pub scopes : Chars

pub record ServerMetadata : Type 0 where
  pub issuer : Chars
  pub authorization_endpoint : Chars
  pub token_endpoint : Chars
  pub revocation_endpoint : Option Chars

pub record IdClaims : Type 0 where
  pub sub : Chars
  pub email : Option Chars
  pub name : Option Chars
  pub given_name : Option Chars
  pub family_name : Option Chars

-- `starts_with`.
abbrev pub starts_with : Chars → Chars → Bool
starts_with text [] = true
starts_with [] (p ∷ ps) = false
starts_with (c ∷ cs) (p ∷ ps) = c == p && starts_with cs ps

-- The issuer that the relay names, if it is a secure one.
unfoldable pub check_issuer : RelayAuthConfig → Answer Chars
check_issuer config =
    let issuer = trim_slashes config.issuer in
    if starts_with issuer (codes "https://")
    then done issuer
    else failed (codes "The relay named an insecure sign-in service.")

-- The metadata must be for the issuer that was asked.
unfoldable pub check_metadata : Chars → ServerMetadata → Answer ServerMetadata
check_metadata issuer metadata =
    if trim_slashes metadata.issuer == issuer
    then done metadata
    else failed (codes "The account service's details don't match the relay's.")

-- `bind_loopback`: the first port that is free.
unfoldable pub bind_loopback : (ℕ → Bool) → List ℕ → Option ℕ
bind_loopback free [] = none
bind_loopback free (port ∷ ports) = if free port then some port else bind_loopback free ports

abbrev pub loopback_ports : List ℕ
loopback_ports = 53682 ∷ 53683 ∷ 53684 ∷ []

-- The second part of a text that dots divide, if there is one.
abbrev until_dot : Chars → Chars
until_dot [] = []
until_dot (c ∷ cs) = if c == b'.' then [] else c ∷ until_dot cs

abbrev second_part : Chars → Option Chars
second_part [] = none
second_part (c ∷ cs) = if c == b'.' then some (until_dot cs) else second_part cs

abbrev or_text : Option Chars → Chars → Chars
or_text none other = other
or_text (some t) other = t

-- The names there are, joined by a space.
abbrev join_names : Option Chars → Option Chars → Chars
join_names none none = []
join_names (some given) none = given
join_names none (some family) = family
join_names (some given) (some family) = given ++ (codes " " ++ family)

abbrev not_blank : Chars → Option Chars
not_blank [] = none
not_blank (c ∷ cs) = some (c ∷ cs)

-- The name that is shown.
unfoldable pub full_name : IdClaims → Option Chars
full_name claims = elim claims.name [
  | some name ↦ some name
  | none ↦ not_blank (join_names claims.given_name claims.family_name)
]

-- Both a refresh token and an account are needed.
unfoldable pub session_of :
    Chars → RelayAuthConfig → ServerMetadata → Option Chars → Option Account → Answer StoredSession
session_of issuer config metadata none account =
    failed (codes "The account service didn't allow staying signed in (no refresh token).")
session_of issuer config metadata (some refresh_token) none =
    failed (codes "Unexpected answer from the account service.")
session_of issuer config metadata (some refresh_token) (some account) = done (record {
  issuer = issuer;
  client_id = config.client_id;
  token_endpoint = metadata.token_endpoint;
  revocation_endpoint = metadata.revocation_endpoint;
  refresh_token = refresh_token;
  account = account;
})

module _ (read_claims : Chars → Option IdClaims) where
  unfoldable pub account_from : TokenResponse → Option Account
  account_from tokens = elim (second_part (or_text tokens.id_token tokens.access_token)) [
    | none ↦ none
    | some payload ↦ elim (read_claims payload) [
      | none ↦ none
      | some claims ↦
          some (record { user_id = claims.sub; email = claims.email; name = full_name claims })
    ]
  ]

  -- The tokens of the exchange, if they can be kept.
  unfoldable pub read_tokens : Response → Answer TokenResponse
  read_tokens (no_answer error) = failed error
  read_tokens (answer status json) =
      if not (is_success status)
      then failed (codes "The account service didn't accept the sign-in. Try again.")
      else elim json [
        | none ↦ failed (codes "Unexpected answer from the account service.")
        | some tokens ↦ done tokens
      ]

  -- What is saved of the sign-in.
  unfoldable pub new_session :
      Chars → RelayAuthConfig → ServerMetadata → TokenResponse → Answer StoredSession
  new_session issuer config metadata tokens =
      session_of issuer config metadata tokens.refresh_token (account_from tokens)

  -- The tokens and what is saved of them.
  unfoldable pub exchanged :
      Chars → RelayAuthConfig → ServerMetadata → Response → Answer (TokenResponse × StoredSession)
  exchanged issuer config metadata response = read_tokens response >>= λ tokens.
      new_session issuer config metadata tokens >>= λ stored. done (tokens, stored)

-- The end of `sign_in_flow`, from the answer to the exchange of the code on.
unfoldable pub complete :
    AuthState → Answer (TokenResponse × StoredSession) → ℕ → Bool → AuthState × Answer Account
complete a (failed error) now disk = (a, failed error)
complete a (done (tokens, stored)) now disk = (
  record (store_session a stored disk) {
    session = some (record {
      stored = stored;
      access_token = some (tokens.access_token, expiry now tokens.expires_in);
    });
  },
  done stored.account,
)
