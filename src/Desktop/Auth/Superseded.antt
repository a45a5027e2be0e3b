-- ===== src/Desktop/Auth/Superseded.antt =====
-- A sign-out while a sign-in is under way, in apps/desktop/src-tauri/src/auth.rs.
use cled.Common.{Bool, ap, arith, false, is_some, nat_eq, refl, some, true, ℕ, ◌+◌, ◌==◌, ◌∙◌, ◌≡◌}
use cled.Desktop.Answer.{Answer, done, UrlCrate}
use cled.Desktop.Auth.{
  Account, signed_out, signed_in, AuthState, StoredSession, TokenResponse, stored_status, load,
  store_session, forget_stored_session, set_status, cancel_pending_sign_in,
}
use cled.Desktop.Auth.Flow.{complete}
use cled.Desktop.Auth.Commands.{App, with_auth, sign_out, publish, end_sign_in}

cancel_pending_sign_in-same :
    (a : AuthState)
    → ((cancel_pending_sign_in a).has_path ≡ a.has_path)
      × ((cancel_pending_sign_in a).generation ≡ a.generation)
unfolding cancel_pending_sign_in
cancel_pending_sign_in-same a = ground arith

forget_stored_session-same :
    (a : AuthState) (disk : Bool)
    → ((forget_stored_session a disk).has_path ≡ a.has_path)
      × ((forget_stored_session a disk).generation ≡ a.generation)
unfolding forget_stored_session
forget_stored_session-same a disk = ground arith

sign_out-same :
    (c : UrlCrate) (a : App) (disk : Bool)
    → ((sign_out c a disk).0.auth.has_path ≡ a.auth.has_path)
      × ((sign_out c a disk).0.auth.generation ≡ a.auth.generation + 1)
      × ((sign_out c a disk).0.auth.status ≡ signed_out)
unfolding sign_out publish set_status
sign_out-same c a disk = (
  (forget_stored_session-same _ disk).0 ∙ (cancel_pending_sign_in-same a.auth).0,
  (forget_stored_session-same _ disk).1 ∙ ap (λ n. n + 1) (cancel_pending_sign_in-same a.auth).1,
  refl,
)

store_session-same :
    (a : AuthState) (stored : StoredSession)
    → ((store_session a stored true).generation ≡ a.generation)
      × ((store_session a stored true).status ≡ a.status)
unfolding store_session
store_session-same a stored = ground arith

store_session-file :
    (a : AuthState) (stored : StoredSession)
    → a.has_path ≡ true
    → (store_session a stored true).file ≡ some stored
unfolding store_session
store_session-file a stored h = ground (arith, h)

-- The end of an attempt that is superseded changes nothing.
end_sign_in_late :
    (c : UrlCrate) (a : App) (generation : ℕ) (result : Answer Account)
    → (a.auth.generation == generation) ≡ false
    → (end_sign_in c a generation result).0 ≡ a
unfolding end_sign_in
end_sign_in_late c a generation result h = rw (end_sign_in, h) refl

-- The app after a sign-out, and then the end of the sign-in attempt that was under way, whose code was
-- exchanged for `tokens`.
abbrev pub signed_out_meanwhile : UrlCrate → App → TokenResponse → StoredSession → ℕ → App
signed_out_meanwhile c a tokens stored now =
    let b = (sign_out c a true).0 in
    let (auth, result) = complete b.auth (done (tokens, stored)) now true in
    (end_sign_in c (with_auth b auth) a.auth.generation result).0

-- A sign-out that comes while a sign-in waits for the answer to the exchange of its code does not last: the
-- app shows that it is signed out, but the new sign-in is kept in memory and saved, if files can be
-- written, and the app is signed in when it starts again.
pub signed_out_meanwhile_saved :
    (c : UrlCrate) (a : App) (tokens : TokenResponse) (stored : StoredSession) (now : ℕ)
    → a.auth.has_path ≡ true
    → ((signed_out_meanwhile c a tokens stored now).auth.status ≡ signed_out)
      × (is_some (signed_out_meanwhile c a tokens stored now).auth.session ≡ true)
      × ((load true (signed_out_meanwhile c a tokens stored now).auth.file).status
          ≡ signed_in stored.account)
unfolding load complete
signed_out_meanwhile_saved c a tokens stored now h = (
  ap (λ (x : App). x.auth.status) late
      ∙ (store_session-same b.auth stored).1
      ∙ (sign_out-same c a true).2,
  ap (λ (x : App). is_some x.auth.session) late,
  ap (λ (x : App). stored_status x.auth.file) late
      ∙ ap stored_status (store_session-file b.auth stored ((sign_out-same c a true).0 ∙ h)),
)
  where
    b : App
    b = (sign_out c a true).0

    apart : ((store_session b.auth stored true).generation == a.auth.generation) ≡ false
    apart = ground (arith, store_session-same b.auth stored, sign_out-same c a true)

    late :
        signed_out_meanwhile c a tokens stored now
        ≡ with_auth b (complete b.auth (done (tokens, stored)) now true).0
    late = end_sign_in_late c _ a.auth.generation _ apart
