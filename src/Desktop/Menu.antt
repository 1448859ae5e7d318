-- ===== src/Desktop/Menu.antt =====
-- The remaining slots: the start of the window, the watcher of the wifi and the tray's plain actions.
use celo_desktop_app.Base.{true, false, if◌then◌else◌}
use celo_desktop_app.Base.State.{get, skip, ◌>>=◌, ◌>>◌}
use celo_desktop_app.Auth.OldIp.{get_old_ip}
use celo_desktop_app.Setting.Flags.{is_on, autoconnect, detect_insecure_wifi}
use celo_desktop_app.Desktop.Types.{
  primary, map_screen, settings_screen, logs_screen, DeskEnv, D, on_form, show,
}
use celo_desktop_app.Desktop.Tray.{send_disconnect}
use celo_desktop_app.Desktop.Slots.{on_auth, login_clicked}

unfoldable pub start_wifi_watcher : D (Unit {0})
start_wifi_watcher = do
  d ← get
  if d.form.wifi_timer
      then skip
      else on_form (λ f. record f { wifi_processing = false; wifi_timer = true })

unfoldable pub stop_wifi_watcher : D (Unit {0})
stop_wifi_watcher = on_form (λ f. record f { wifi_timer = false })

module _ (env : DeskEnv) where
  unfoldable pub detect_insecure_wifi_changed : D (Unit {0})
  detect_insecure_wifi_changed = do
    d ← get
    if is_on env.gui.cv detect_insecure_wifi d.gui.preferences
        then start_wifi_watcher
        else stop_wifi_watcher

  -- Timer_Constructed, without the check for updates.
  unfoldable pub timer_constructed : D (Unit {0})
  timer_constructed = do
    on_auth env get_old_ip
    d ← get
    if is_on env.gui.cv autoconnect d.gui.preferences
        then (do on_form (λ f. record f { connect_after_login = true }); login_clicked env)
        else skip
    k ← get
    if is_on env.gui.cv detect_insecure_wifi k.gui.preferences then start_wifi_watcher else skip

  unfoldable pub disconnect_triggered : D (Unit {0})
  disconnect_triggered = send_disconnect env

unfoldable pub status_triggered : D (Unit {0})
status_triggered = show primary

unfoldable pub switch_country_triggered : D (Unit {0})
switch_country_triggered = show map_screen

unfoldable pub settings_triggered : D (Unit {0})
settings_triggered = show settings_screen

unfoldable pub logs_triggered : D (Unit {0})
logs_triggered = show logs_screen
