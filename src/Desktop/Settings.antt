-- ===== src/Desktop/Settings.antt =====
-- apps/desktop/src-tauri/src/settings.rs: the settings, in memory and in their file. The crates url and
-- serde_json are parameters.
use cled.Common.{
  Bool, List, Option, [], false, if◌then◌else◌, list_eq, nat_eq, none, not, some, true, ℕ, ◌&&◌,
  ◌==◌, ◌||◌, ◌∷◌,
}
use cled.Common.Utf8.{codes}
use cled.Clipboard.Content.{Chars}
use cled.Sync.Item.Text.{trim}
use cled.Desktop.Answer.{Answer, done, failed, Url, UrlCrate}

pub data ConnectionMode : Type 0 where
  lan relay : ConnectionMode

pub record Settings : Type 0 where
  pub connection_mode : ConnectionMode
  pub relay_url : Chars

abbrev default_relay_url : Chars
default_relay_url = codes "https://cled-92hd.onrender.com"

-- `Settings::default`.
abbrev default_settings : Settings
default_settings = record { connection_mode = lan; relay_url = default_relay_url }

abbrev not_empty : Option Chars → Bool
not_empty none = false
not_empty (some []) = false
not_empty (some (c ∷ cs)) = true

-- The condition on a URL that was parsed.
unfoldable pub valid_url : Option Url → Bool
valid_url none = false
valid_url (some url) =
    (url.scheme == codes "http" || url.scheme == codes "https") && not_empty url.host_str

unfoldable pub check_url : UrlCrate → Chars → Answer Chars
check_url c [] = failed (codes "Enter a relay URL.")
check_url c (x ∷ xs) =
    if valid_url (c.parse (x ∷ xs))
    then done (x ∷ xs)
    else failed
        (codes "Enter a full URL starting with http:// or https://, e.g. https://relay.example.com")

unfoldable pub validate_relay_url : UrlCrate → Chars → Answer Chars
validate_relay_url c input = check_url c (trim input)

-- `validate_relay_url(…).is_err()`.
abbrev is_failed {ℓ} : {A : Type ℓ} → Answer A → Bool
is_failed (done a) = false
is_failed (failed e) = true

-- `load`, where `file` is what was read of the file, if anything, and `from_slice` reads its JSON.
module _ (c : UrlCrate) (from_slice : List ℕ → Option Settings) where
  unfoldable pub read_settings : Option (List ℕ) → Settings
  read_settings none = default_settings
  read_settings (some bytes) = elim (from_slice bytes) [ none ↦ default_settings | some s ↦ s ]

  unfoldable pub load : Option (List ℕ) → Settings
  load file =
      let settings = read_settings file in
      if is_failed (validate_relay_url c settings.relay_url)
      then record settings { relay_url = default_relay_url }
      else settings

-- `has_path` is whether there is a directory for the file, and `file` what was last saved in it.
pub record SettingsState : Type 0 where
  pub has_path : Bool
  pub settings : Settings
  pub file : Option Settings

-- `update`, where `disk` is whether saving succeeds. Writing a second file first and renaming it leaves
-- the old one in place if it fails.
unfoldable pub update :
    SettingsState → (Settings → Settings) → Bool → SettingsState × Answer Settings
update s change disk =
    let next = change s.settings in
    if not s.has_path
    then (record s { settings = next }, done next)
    else if disk
    then (record s { settings = next; file = some next }, done next)
    else (s, failed (codes "Couldn't save settings."))
