-- ===== src/Desktop/Auth/Commands.antt =====
-- The commands of apps/desktop/src-tauri/src/auth.rs: signing in, out, and cancelling. A sign-in waits
-- between its parts, so that other commands can come in between: `begin_sign_in`, the parts of its flow,
-- and `end_sign_in`.
use cled.Common.{
  Bool, List, Option, [], if◌then◌else◌, nat_eq, none, not, some, ℕ, ◌++◌, ◌+◌, ◌==◌, ◌∷◌,
}
use cled.Clipboard.Content.{Chars}
use cled.Desktop.Answer.{Answer, done, failed, UrlCrate}
use cled.Desktop.Relay.{Control, set_signed_in}
use cled.Desktop.Auth.{
  Account, AuthStatus, signed_out, signing_in, signed_in, shows_sign_in, AuthState, Session,
  forget_stored_session, set_status, cancel_pending_sign_in,
}

-- The state that the commands share. `emitted` is what the user interface was told, and `revocations` the
-- refresh tokens that were sent to be revoked, with the address.
pub record App : Type 0 where
  pub auth : AuthState
  pub control : Control
  pub emitted : List AuthStatus
  pub revocations : List (Chars × Chars)

abbrev pub with_auth : App → AuthState → App
with_auth a auth = record a { auth = auth }

-- The status after an attempt: a failed one leaves an earlier sign-in in place.
unfoldable pub outcome_status : Answer Account → Option Session → AuthStatus
outcome_status (done account) session = signed_in account
outcome_status (failed error) (some session) = signed_in session.stored.account
outcome_status (failed error) none = signed_out

abbrev answer_with : Answer Account → AuthStatus → Answer AuthStatus
answer_with (done account) status = done status
answer_with (failed error) status = failed error

-- `result.map(…)` of an attempt that a later one, or a sign-out, has superseded.
abbrev as_signed_in : Answer Account → Answer AuthStatus
as_signed_in (done account) = done (signed_in account)
as_signed_in (failed error) = failed error

-- The request that revokes the refresh token, if the account service takes one.
unfoldable pub revocation : Option Session → List (Chars × Chars)
revocation none = []
revocation (some session) = elim session.stored.revocation_endpoint [
  | none ↦ []
  | some endpoint ↦ (endpoint, session.stored.refresh_token) ∷ []
]

module _ (c : UrlCrate) where
  unfoldable pub publish : App → AuthStatus → App
  publish a status = record a {
    auth = set_status a.auth status;
    control = set_signed_in c a.control (shows_sign_in status);
    emitted = a.emitted ++ status ∷ [];
  }

  -- The start of `sign_in`, with the generation of the attempt.
  unfoldable begin_sign_in : App → App × ℕ
  begin_sign_in a =
      let quiet = cancel_pending_sign_in a.auth in
      let generation = quiet.generation + 1 in
      (
        publish
            (with_auth a
              (record quiet { generation = generation; cancel_sign_in = some generation }))
            signing_in,
        generation,
      )

  -- The end of `sign_in`, with the result of the flow.
  unfoldable pub end_sign_in : App → ℕ → Answer Account → App × Answer AuthStatus
  end_sign_in a generation result =
      if not (a.auth.generation == generation)
      then (a, as_signed_in result)
      else let status = outcome_status result a.auth.session in
        (publish a status, answer_with result status)

  unfoldable pub sign_out : App → Bool → App × Answer AuthStatus
  sign_out a disk =
      let quiet = cancel_pending_sign_in a.auth in
      let auth = record quiet { generation = quiet.generation + 1; session = none } in
      let b = publish (with_auth a (forget_stored_session auth disk)) signed_out in
      (record b { revocations = b.revocations ++ revocation a.auth.session }, done signed_out)

-- `cancel_sign_in`.
unfoldable pub cancel_sign_in : App → App
cancel_sign_in a = with_auth a (cancel_pending_sign_in a.auth)
