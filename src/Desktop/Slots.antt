-- ===== src/Desktop/Slots.antt =====
-- The slots of the login window and of the tray's menu, and the signals between the parts.
use celo_desktop_app.Base.{
  Bool, true, false, not, ◌&&◌, ◌||◌, Option, none, some, List, [], ◌∷◌, ◌++◌, if◌then◌else◌,
  is_empty,
}
use celo_desktop_app.Base.Int.{ℤ, pos, eqb_ℤ}
use celo_desktop_app.Base.State.{get, skip, modify, ◌>>=◌, ◌>>◌}
use celo_desktop_app.Base.Text.{Text, codes}
use celo_desktop_app.Auth.Types.{
  A, AuthAction, login_completed, logout_completed, server_lists_loaded, login_error, old_ip_loaded,
  new_ip_loaded, send_credentials, fetch_servers, abort_reply, fetch_old_ip, start_ping,
}
use celo_desktop_app.Auth.Servers.{Reply, login, cancel, logout}
use celo_desktop_app.Auth.Login.{login_finished}
use celo_desktop_app.Gui.Manager.{GuiEnv, on_settings, send_netdown_command}
use celo_desktop_app.Gui.Manager
use celo_desktop_app.Setting.Store.{text_value, set_value}
use celo_desktop_app.Setting.Protocols.{encryption}
use celo_desktop_app.Setting.Load.{load_server}
use celo_desktop_app.Setting.Flags
use celo_desktop_app.Setting.Flags.{is_on, autoconnect}
use celo_desktop_app.Desktop.Types.{
  primary, login_screen, error_dialog, DeskEnv, D, gui_env, on_gui, on_form, on_tray, show,
}
use celo_desktop_app.Desktop.Tray.{
  disable_actions_on_logout, enable_buttons_on_login, clear_connect_to_menu,
  construct_connect_to_menu, send_connect, send_disconnect, connect_to,
}

unfoldable pub enable_buttons : Bool → D (Unit {0})
enable_buttons b = on_form (λ f. record f { buttons = b })

unfoldable pub save_credentials : DeskEnv → D (Unit {0})
save_credentials env = do
  d ← get
  if d.form.remember
      then (do
        on_gui env (λ g. on_settings (set_value (codes "eLogin") (text_value d.form.name)))
        on_gui env (λ g. on_settings (set_value (codes "ePsw") (text_value d.form.password))))
      else skip

module _ (env : DeskEnv) where
  -- Setting::loadServer, which may fill the cache of the names.
  unfoldable pub desk_load_server : D (Unit {0})
  desk_load_server d =
      let g = gui_env env d in
      let r =
        load_server g.qt g.cv env.sort d.auth.pings.pings (env.rand 0) (env.rand 1) d.auth.account
          d.gui.preferences in
      (
        tt,
        record d {
          auth = record d.auth { account = r.0 };
          gui = record d.gui { preferences = r.1 };
        },
      )

  -- LoginWindow::loggedIn, up to the menu and behind it.
  unfoldable pub open_session : D (Unit {0})
  open_session = do
    save_credentials env
    d ← get
    if eqb_ℤ (encryption env.gui.cv d.gui.preferences) (pos 0) then desk_load_server else skip
    show primary

  unfoldable pub start_session : D (Unit {0})
  start_session = do
    d ← get
    if d.form.connect_after_login then send_connect env else skip
    enable_buttons true
    on_form (λ f. record f { connect_after_login = false })

  unfoldable pub window_logged_in : D (Unit {0})
  window_logged_in = do open_session; construct_connect_to_menu env; start_session

  -- LoginWindow::loginError.
  unfoldable pub window_login_error : Text → D (Unit {0})
  window_login_error message = do
    disable_actions_on_logout
    d ← get
    if d.form.cancel_login then skip else (do show login_screen; show (error_dialog message))
    enable_buttons true
    on_form (λ f. record f { connect_after_login = false })

  -- The slots of AuthManager's signals and what it asks of VPNServiceManager.
  unfoldable pub deliver : AuthAction → D (Unit {0})
  deliver login_completed = do enable_buttons_on_login; window_logged_in
  deliver (login_error message) = window_login_error message
  deliver logout_completed = disable_actions_on_logout
  deliver server_lists_loaded = construct_connect_to_menu env
  deliver send_credentials = on_gui env Manager.send_credentials
  deliver (old_ip_loaded ip) = skip
  deliver (new_ip_loaded ip) = skip
  deliver fetch_servers = skip
  deliver abort_reply = skip
  deliver fetch_old_ip = skip
  deliver (start_ping id srv) = skip

  -- The oldest one stands last.
  unfoldable pub deliver_all : List AuthAction → D (Unit {0})
  deliver_all [] = skip
  deliver_all (a ∷ older) = do deliver_all older; deliver a

  -- An operation of AuthManager, and then the slots of what it has emitted.
  unfoldable pub on_auth : A (Unit {0}) → D (Unit {0})
  on_auth op d =
      let after = (op (record d.auth { trace = [] })).1 in
      deliver_all after.trace
        (record d { auth = record after { trace = after.trace ++ d.auth.trace } })

  -- on_loginButton_clicked.
  unfoldable pub login_clicked : D (Unit {0})
  login_clicked = do
    d ← get
    if d.auth.account.logged_in || is_empty d.form.name then skip else (do
      on_form (λ f. record f { cancel_login = false })
      enable_buttons false
      on_auth (login d.form.name d.form.password))

  -- on_cancelButton_clicked.
  unfoldable pub cancel_clicked : D (Unit {0})
  cancel_clicked = do on_form (λ f. record f { cancel_login = true }); on_auth cancel

  unfoldable pub login_reply : Reply → D (Unit {0})
  login_reply r = on_auth (login_finished env.dom env.testing r)

  -- checkWifi, while the service is reported disconnected or not.
  unfoldable pub check_wifi : D (Unit {0})
  check_wifi = do
    d ← get
    if d.form.wifi_timer && not d.form.wifi_processing && eqb_ℤ d.gui.state (pos 0)
        then (if d.auth.account.logged_in
            then (if env.insecure_wifi then send_connect env else skip)
            else if is_on env.gui.cv autoconnect d.gui.preferences && env.insecure_wifi
            then (do on_form (λ f. record f { connect_after_login = true }); login_clicked)
            else skip)
        else skip

  -- BlockOnDisconnect.
  unfoldable pub block_on_disconnect : D (Unit {0})
  block_on_disconnect = do
    d ← get
    if is_on env.gui.cv Flags.block_on_disconnect d.gui.preferences
          && (not d.auth.account.logged_in || eqb_ℤ d.gui.state (pos 0))
        then on_gui env send_netdown_command
        else skip

  unfoldable pub connect_triggered : D (Unit {0})
  connect_triggered = do
    d ← get
    if d.auth.account.logged_in then send_connect env else login_clicked

  unfoldable pub connect_to_triggered : ℤ → D (Unit {0})
  connect_to_triggered id = do
    d ← get
    if d.auth.account.logged_in then connect_to env id else login_clicked

  -- `mConnectToMenu->setEnabled(false)`.
  abbrev pub disable_menu : Option (List (Text × ℤ)) → D (Unit {0})
  disable_menu none = modify (λ d. record d { crashed = true })
  disable_menu (some items) = on_tray (λ t. record t { menu_enabled = false })

  -- logoutTriggered, up to the menu's own flag.
  unfoldable pub leave_session : D (Unit {0})
  leave_session = do
    send_disconnect env
    on_auth logout
    show primary
    cancel_clicked
    clear_connect_to_menu

  unfoldable pub logout_triggered : D (Unit {0})
  logout_triggered = do leave_session; d ← get; disable_menu d.tray.menu; disable_actions_on_logout
