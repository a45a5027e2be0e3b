-- ===== src/Desktop/Auth/Callback.antt =====
-- `receive_code` of apps/desktop/src-tauri/src/auth.rs: the redirect of the browser. A request is its target,
-- if it has one; the crate url parses it and reads its query.
use cled.Common.{
  List, Option, [], if◌then◌else◌, list_eq, nat_eq, none, not, option_eq, some, ℕ, ◌++◌, ◌==◌, ◌∷◌,
}
use cled.Common.Map
use cled.Common.Utf8.{codes}
use cled.Clipboard.Content.{Chars}
use cled.Desktop.Answer.{Answer, done, failed, Url, UrlCrate}

-- A map of the query's pairs, where a later pair takes the place of an earlier one.
abbrev collect : List (Chars × Chars) → List (Chars × Chars) → List (Chars × Chars)
collect params [] = params
collect params ((key, value) ∷ pairs) = collect (Map.insert params key value) pairs

-- What a request comes to: the status of the response, and the end of the wait if it is one.
pub record Handled : Type 0 where
  pub status : ℕ
  pub outcome : Option (Answer Chars)

abbrev carry_on : ℕ → Handled
carry_on status = record { status = status; outcome = none }

abbrev finish : Answer Chars → Handled
finish outcome = record { status = 200; outcome = some outcome }

-- The parameters of a request that has the expected state.
unfoldable on_params : List (Chars × Chars) → Handled
on_params params = elim (Map.get params (codes "error")) [
  | some error ↦
      if error == codes "access_denied"
      then finish (failed (codes "Sign-in was cancelled in the browser."))
      else finish (failed (codes "Sign-in failed in the browser. Try again."))
  | none ↦ elim (Map.get params (codes "code")) [ none ↦ carry_on 400 | some c ↦ finish (done c) ]
]

module _ (c : UrlCrate) (query_pairs : Url → List (Chars × Chars)) (expected_state : Chars) where
  unfoldable on_target : Chars → Handled
  on_target target = elim (c.parse (codes "http://127.0.0.1" ++ target)) [
    | none ↦ carry_on 400
    | some url ↦
        let params = collect [] (query_pairs url) in
        if not (url.path == codes "/callback")
        then carry_on 404
        else if not (Map.get params (codes "state") == some expected_state)
        then carry_on 400
        else on_params params
  ]

  -- The loop, over the connections that are accepted; `none` is one without a request. The statuses of the
  -- responses come with the outcome, which is `none` while the browser has not come back.
  unfoldable receive_code : List (Option Chars) → List ℕ × Option (Answer Chars)
  receive_code [] = ([], none)
  receive_code (none ∷ requests) = receive_code requests
  receive_code (some target ∷ requests) =
      let rest = receive_code requests in
      let handled = on_target target in
      elim handled.outcome [
        | some outcome ↦ (handled.status ∷ [], some outcome)
        | none ↦ (handled.status ∷ rest.0, rest.1)
      ]
