-- ===== src/Desktop/Auth/SignIn.antt =====
-- `sign_in_flow` of apps/desktop/src-tauri/src/auth.rs as a whole, over what it is answered.
pub mod Secure
use cled.Common.{Bool, Option, all, list_eq, nat_eq, none, some, ℕ}
use cled.Common.Utf8.{codes}
use cled.Clipboard.Content.{Chars}
use cled.Desktop.Answer.{Answer, done, failed, ◌>>=◌}
use cled.Desktop.Auth.{StoredSession, TokenResponse, Response}
use cled.Desktop.Auth.Flow.{
  RelayAuthConfig, ServerMetadata, IdClaims, check_issuer, check_metadata, bind_loopback,
  loopback_ports, exchanged,
}

-- How the wait for the browser ends.
pub data Browser : Type 0 where
  came_back : Answer Chars → Browser
  timed_out cancelled : Browser

-- The code that the browser brings.
unfoldable pub await_code : Browser → Answer Chars
await_code (came_back code) = code
await_code timed_out = failed (codes "Sign-in timed out. Try again.")
await_code cancelled = failed (codes "Sign-in cancelled.")

abbrev pub or_in_use : Option ℕ → Answer ℕ
or_in_use none = failed (
    codes
      "Couldn't start sign-in: the local ports are all in use. Close whatever is using them and try again.")
or_in_use (some port) = done port

-- What the flow is answered: by the relay, by the account service, and by this machine, each with the error
-- that is shown instead.
pub record Answers : Type 0 where
  pub config : Answer RelayAuthConfig
  pub metadata : Answer ServerMetadata
  pub is_free : ℕ → Bool
  pub browser_opened : Answer (Unit {0})
  pub browser : Browser
  pub response : Response

module _ (read_claims : Chars → Option IdClaims) where
  unfoldable pub sign_in_flow : Answers → Answer (TokenResponse × StoredSession)
  sign_in_flow a = a.config >>= λ config. check_issuer config >>= λ issuer. a.metadata >>= λ named.
      check_metadata issuer named >>= λ metadata.
      or_in_use (bind_loopback a.is_free loopback_ports) >>= λ port. a.browser_opened >>= λ opened.
      await_code a.browser >>= λ code. exchanged read_claims issuer config metadata a.response
