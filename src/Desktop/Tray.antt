-- ===== src/Desktop/Tray.antt =====
-- The tray icon: its menu and its actions.
use celo_desktop_app.Base.{
  Bool, true, false, not, ◌&&◌, Option, none, some, List, [], ◌∷◌, if◌then◌else◌,
}
use celo_desktop_app.Base.Int.{ℤ, pos, eqb_ℤ, ltb_ℤ}
use celo_desktop_app.Base.State.{get, skip, ◌>>=◌, ◌>>◌}
use celo_desktop_app.Base.Text.{Text}
use celo_desktop_app.Auth.Types.{Account}
use celo_desktop_app.Auth.Servers.{get_server, current_encryption_servers}
use celo_desktop_app.Auth.Jump.{get_server_to_jump}
use celo_desktop_app.Gui.Manager.{
  on_settings, send_connect_to_vpn_request, send_disconnect_from_vpn_request,
}
use celo_desktop_app.Setting.Protocols.{tcp_or_udp}
use celo_desktop_app.Setting.Servers.{server_id, set_server}
use celo_desktop_app.Desktop.Types.{
  Icon, no_icon, cross_icon, cycle_icon, plain_icon, primary, DeskEnv, D, on_gui, on_tray, show,
}

unfoldable pub disable_actions_on_logout : D (Unit {0})
disable_actions_on_logout =
    on_tray (λ t. record t { logout = false; jump = false; switch_country = false })

unfoldable pub enable_buttons_on_login : D (Unit {0})
enable_buttons_on_login =
    on_tray (λ t. record t { logout = true; jump = true; switch_country = true })

-- updateActionsEnabled.
unfoldable pub update_actions_enabled : Bool → D (Unit {0})
update_actions_enabled connecting = do
  d ← get
  let logged_in = d.auth.account.logged_in
  on_tray (λ t. record t {
    connect = not connecting;
    jump = not connecting;
    switch_country = logged_in && not connecting;
    disconnect = logged_in && connecting;
    connect_to = logged_in && not connecting;
  })

unfoldable pub set_icon : Icon → D (Unit {0})
set_icon i = on_tray (λ t. record t { icon = i })

-- TrayIconManager::stateChanged.
unfoldable pub state_changed : ℤ → D (Unit {0})
state_changed st =
    if eqb_ℤ st (pos 0)
    then (do update_actions_enabled false; set_icon cross_icon)
    else if eqb_ℤ st (pos 1)
    then (do update_actions_enabled true; set_icon cycle_icon)
    else if eqb_ℤ st (pos 2)
    then (do set_icon plain_icon; on_tray (λ t. record t { jump = true; switch_country = true }))
    else set_icon no_icon

-- clearConnectToMenu.
abbrev pub emptied : Option (List (Text × ℤ)) → Option (List (Text × ℤ))
emptied none = none
emptied (some items) = some []

unfoldable pub clear_connect_to_menu : D (Unit {0})
clear_connect_to_menu = on_tray (λ t. record t { menu = emptied t.menu })

abbrev pub items_of : Account → List ℤ → List (Text × ℤ)
items_of a [] = []
items_of a (id ∷ ids) = ((get_server a id).name, id) ∷ items_of a ids

module _ (env : DeskEnv) where
  unfoldable pub construct_connect_to_menu : D (Unit {0})
  construct_connect_to_menu = do
    d ← get
    if env.testing
        then skip
        else if d.auth.account.logged_in
        then (do
          clear_connect_to_menu
          kind ← on_gui env (λ g. on_settings (tcp_or_udp g.cv g.qt))
          on_tray (λ t. record t {
            menu = some (items_of d.auth.account (current_encryption_servers d.auth.account kind));
            menu_enabled = true;
          }))
        else skip

  unfoldable pub send_connect : D (Unit {0})
  send_connect = on_gui env send_connect_to_vpn_request

  unfoldable pub send_disconnect : D (Unit {0})
  send_disconnect = on_gui env send_disconnect_from_vpn_request

  -- setServer, and the request.
  unfoldable pub connect_to : ℤ → D (Unit {0})
  connect_to id = do on_gui env (λ g. on_settings (set_server g.qt g.cv g.account id)); send_connect

  -- AuthManager::jump.
  unfoldable pub jump : D (Unit {0})
  jump = do
    d ← get
    let prev = server_id env.gui.qt env.gui.cv d.auth.account d.gui.preferences
    let id =
        get_server_to_jump env.sort (env.rand 0) (env.rand 1) prev d.auth.account d.auth.pings.pings
    if ltb_ℤ id (pos 0) then skip else connect_to id

  unfoldable pub jump_triggered : D (Unit {0})
  jump_triggered = do show primary; jump
