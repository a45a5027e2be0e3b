-- ===== src/Desktop/Commands.antt =====
-- The commands of apps/desktop/src-tauri/src/settings.rs that change the settings, with the relay
-- connection that they tell.
use cled.Common.{Bool}
use cled.Clipboard.Content.{Chars}
use cled.Desktop.Answer.{Answer, done, failed, UrlCrate}
use cled.Desktop.Settings.{ConnectionMode, Settings, SettingsState, update, validate_relay_url}
use cled.Desktop.Relay.{Control, configure}

pub record Configured : Type 0 where
  pub settings : SettingsState
  pub control : Control

module _ (c : UrlCrate) where
  -- The relay is told of settings that were saved.
  unfoldable tell_relay :
      Configured → SettingsState × Answer Settings → Configured × Answer Settings
  tell_relay s (settings, failed e) = (record s { settings = settings }, failed e)
  tell_relay s (settings, done saved) =
      (record { settings = settings; control = configure c s.control saved }, done saved)

  unfoldable set_connection_mode : Configured → ConnectionMode → Bool → Configured × Answer Settings
  set_connection_mode s mode disk =
      tell_relay s (update s.settings (λ t. record t { connection_mode = mode }) disk)

  unfoldable set_relay_url : Configured → Chars → Bool → Configured × Answer Settings
  set_relay_url s url disk = elim (validate_relay_url c url) [
    | failed e ↦ (s, failed e)
    | done url' ↦ tell_relay s (update s.settings (λ t. record t { relay_url = url' }) disk)
  ]
