-- ===== src/Desktop/Auth.antt =====
-- apps/desktop/src-tauri/src/auth.rs: the sign-in to the account of a relay, and its tokens. An instant is
-- in seconds. What a request comes to and whether the file is written are arguments; the texts of HTTP
-- errors are arguments too.
pub mod Flow
pub mod Callback
pub mod Request
pub mod SignIn
pub mod Commands
pub mod Superseded
use cled.Common.{
  Bool, List, Option, [], false, if◌then◌else◌, leb, list_eq, ltb, nat_eq, none, not, some, true, ℕ,
  ◌&&◌, ◌++◌, ◌+◌, ◌==◌, ◌∷◌,
}
use cled.Common.Utf8.{codes}
use cled.Clipboard.Content.{Chars}

abbrev expiry_margin : ℕ
expiry_margin = 60

pub record Account : Type 0 where
  pub user_id : Chars
  pub email : Option Chars
  pub name : Option Chars

pub data AuthStatus : Type 0 where
  signed_out signing_in : AuthStatus
  signed_in : (account : Account) → AuthStatus

pub data TokenError : Type 0 where
  no_sign_in : TokenError
  unavailable : (error : Chars) → TokenError

pub data Token : Type 0 where
  token : Chars → Token
  no_token : TokenError → Token

pub record StoredSession : Type 0 where
  pub issuer : Chars
  pub client_id : Chars
  pub token_endpoint : Chars
  pub revocation_endpoint : Option Chars
  pub refresh_token : Chars
  pub account : Account

-- An access token stands with the instant at which it expires.
pub record Session : Type 0 where
  pub stored : StoredSession
  pub access_token : Option (Chars × ℕ)

-- A sign-in attempt is named by its generation; `cancel_sign_in` is the one that can be cancelled, and
-- `cancelled` those that were. `file` is the saved sign-in.
pub record AuthState : Type 0 where
  pub session : Option Session
  pub status : AuthStatus
  pub cancel_sign_in : Option ℕ
  pub cancelled : List ℕ
  pub generation : ℕ
  pub has_path : Bool
  pub file : Option StoredSession

-- The status that is shown of a saved sign-in.
abbrev pub stored_status : Option StoredSession → AuthStatus
stored_status none = signed_out
stored_status (some stored) = signed_in stored.account

abbrev stored_session : Option StoredSession → Option Session
stored_session none = none
stored_session (some stored) = some (record { stored = stored; access_token = none })

-- `AuthState::load`, where `saved` is what the file holds, if it is read and understood.
unfoldable pub load : Bool → Option StoredSession → AuthState
load has_path saved =
    let stored = if has_path then saved else none in
    record {
      session = stored_session stored;
      status = stored_status stored;
      cancel_sign_in = none;
      cancelled = [];
      generation = 0;
      has_path = has_path;
      file = stored;
    }

-- `matches!(status, AuthStatus::SignedIn { .. })`.
abbrev pub shows_sign_in : AuthStatus → Bool
shows_sign_in (signed_in account) = true
shows_sign_in _ = false

unfoldable is_signed_in : AuthState → Bool
is_signed_in a = shows_sign_in a.status

-- A sign-in that is not saved works until the app quits.
unfoldable pub store_session : AuthState → StoredSession → Bool → AuthState
store_session a stored disk = if a.has_path && disk then record a { file = some stored } else a

unfoldable pub forget_stored_session : AuthState → Bool → AuthState
forget_stored_session a disk = if a.has_path && disk then record a { file = none } else a

unfoldable pub set_status : AuthState → AuthStatus → AuthState
set_status a status = record a { status = status }

pub record TokenResponse : Type 0 where
  pub access_token : Chars
  pub refresh_token : Option Chars
  pub expires_in : Option ℕ
  pub id_token : Option Chars

-- What a request comes to: no answer, or a status and the JSON of the body if it is understood.
pub data Response : Type 0 where
  no_answer : (error : Chars) → Response
  answer : (status : ℕ) → (json : Option TokenResponse) → Response

abbrev is_client_error : ℕ → Bool
is_client_error status = leb 400 status && ltb status 500

abbrev pub is_success : ℕ → Bool
is_success status = leb 200 status && ltb status 300

abbrev or_short : Option ℕ → ℕ
or_short none = 120
or_short (some seconds) = seconds

unfoldable pub expiry : ℕ → Option ℕ → ℕ
expiry now expires_in = now + or_short expires_in

-- The access token, if it does not expire soon.
unfoldable pub fresh_token : ℕ → Option (Chars × ℕ) → Option Chars
fresh_token now none = none
fresh_token now (some (access, expires_at)) =
    if ltb (now + expiry_margin) expires_at then some access else none

-- Refresh tokens may rotate.
unfoldable pub rotate : AuthState → Session → Option Chars → Bool → AuthState
rotate a session none disk = record a { session = some session }
rotate a session (some new) disk =
    if new == session.stored.refresh_token
    then record a { session = some session }
    else let stored : StoredSession = record session.stored { refresh_token = new } in
      store_session (record a { session = some (record session { stored = stored }) }) stored disk

-- The new tokens take the place of the old ones.
unfoldable pub take_tokens : AuthState → Session → TokenResponse → ℕ → Bool → AuthState
take_tokens a session tokens now disk =
    rotate a
      (record session { access_token = some (tokens.access_token, expiry now tokens.expires_in) })
      tokens.refresh_token disk

-- The refresh token is no longer good: the sign-in is forgotten.
unfoldable pub revoked : AuthState → Bool → AuthState
revoked a disk = set_status (forget_stored_session (record a { session = none }) disk) signed_out

module _ (status_text : ℕ → Chars) where
  -- What becomes of the answer to a refresh.
  unfoldable pub on_response : AuthState → Session → Response → ℕ → Bool → AuthState × Token
  on_response a session (no_answer error) now disk = (a, no_token (unavailable error))
  on_response a session (answer status json) now disk =
      if is_client_error status
      then (revoked a disk, no_token no_sign_in)
      else if not (is_success status)
      then (a, no_token (unavailable (status_text status)))
      else elim json [
        | none ↦ (a, no_token (unavailable (codes "Unexpected answer from the account service.")))
        | some tokens ↦ (take_tokens a session tokens now disk, token tokens.access_token)
      ]

  -- `access_token`, where `now` is the time of the call and `later` that of the answer.
  unfoldable pub access_token : AuthState → ℕ → Response → ℕ → Bool → AuthState × Token
  access_token a now response later disk = elim a.session [
    | none ↦ (a, no_token no_sign_in)
    | some session ↦ elim (fresh_token now session.access_token) [
      | some access ↦ (a, token access)
      | none ↦ on_response a session response later disk
    ]
  ]

abbrev without_token : Option Session → Option Session
without_token none = none
without_token (some session) = some (record session { access_token = none })

unfoldable discard_access_token : AuthState → AuthState
discard_access_token a = record a { session = without_token a.session }

abbrev cancel : AuthState → Option ℕ → AuthState
cancel a none = a
cancel a (some attempt) = record a {
  cancel_sign_in = none;
  cancelled = a.cancelled ++ attempt ∷ [];
}

-- `cancel_pending_sign_in`.
unfoldable pub cancel_pending_sign_in : AuthState → AuthState
cancel_pending_sign_in a = cancel a a.cancel_sign_in
